-- ===== src/Runtime/Promotion.antt =====
-- The files of the promotion candidates and the tests on a candidate (nanobot/runtime/promotion.py).
use eeebot_self_evolving.Prelude.{
  ℕ, suc, Bool, true, false, ◌&&◌, ◌||◌, not, Option, none, some, String, List, [], ◌∷◌, ◌==◌, leb,
  str_eq, if◌then◌else◌, codes, lstrip, rstrip,
}
use eeebot_self_evolving.Prelude.Json.{Json, Items, Fields}
use eeebot_self_evolving.Prelude.Effects.{Result, ok, raise, exception, Method, pure, throw, ◌>>=◌}
use eeebot_self_evolving.Runtime.Dict.{lookup, as_dict, either, is_true, is_text}
pub mod Readiness
pub mod Inputs
pub mod Review
pub mod Gate
pub mod Workflow
pub mod Verdict

-- The folders below "promotions".
pub data Folder : Type 0 where
  root readiness_packets decisions patches accepted : Folder

abbrev pub number : Folder → ℕ
number Folder.root = 0
number readiness_packets = 1
number decisions = 2
number patches = 3
number accepted = 4

-- The file "<name>.json" of a folder.
pub record Place : Type 0 where
  pub folder : Folder
  pub name : String

abbrev pub same_place : Place → Place → Bool
same_place a b = number a.folder == number b.folder && str_eq a.name b.name

pub data Content : Type 0 where
  unparsable : Content
  parsed : Json → Content

pub record Promotions : Type 0 where
  pub files : Place → Option Content
  -- the number of the next write
  pub writes : ℕ

pub record World : Type 0 where
  pub write_ok : ℕ → Bool
  -- `str` of a path, and whether `Path(str(v))` exists
  pub path_text : Place → String
  pub artifact_exists : Json → Bool

abbrev pub candidate_place : String → Place
candidate_place id = record { folder = Folder.root; name = id }

abbrev pub latest_place : Place
latest_place = record { folder = Folder.root; name = "latest" }

abbrev pub packet_place : String → Place
packet_place id = record { folder = readiness_packets; name = id }

-- `[A-Za-z0-9._-]`
abbrev pub is_id_char : ℕ → Bool
is_id_char c =
    (leb b'A' c && leb c b'Z')
    || ((leb b'a' c && leb c b'z')
        || ((leb b'0' c && leb c b'9') || (c == b'.' || (c == b'_' || c == b'-'))))

abbrev pub all_id_chars : List ℕ → Bool
all_id_chars [] = true
all_id_chars (c ∷ cs) = is_id_char c && all_id_chars cs

-- Not empty, made of such characters, and not starting with a dot.
abbrev pub is_valid_codes : List ℕ → Bool
is_valid_codes [] = false
is_valid_codes (c ∷ cs) = not (c == b'.') && all_id_chars (c ∷ cs)

unfoldable pub is_valid_id : String → Bool
is_valid_id id = is_valid_codes (codes id)

abbrev pub put : (Place → Option Content) → Place → Json → Place → Option Content
put files place v q = if same_place q place then some (parsed v) else files q

-- `_write_json`
unfoldable pub write_json : World → Place → Json → Method Promotions Unit
write_json w place v s =
    let n = s.writes in
    if w.write_ok n
    then (ok tt, record s { files = put s.files place v; writes = suc n })
    else (raise (exception "write"), record s { writes = suc n })

-- `_read_json` of a file that the code then uses as a dict.
unfoldable pub read_json : Place → Method Promotions Fields
read_json place s = elim (s.files place) [
  | none ↦ (raise (exception "FileNotFoundError"), s)
  | some c ↦ elim c as (λ _. Result Fields × Promotions) [
    | unparsable ↦ (raise (exception "JSONDecodeError"), s)
    | parsed v ↦ elim v as (λ _. Result Fields × Promotions) [
      | Json.obj d ↦ (ok d, s)
      | _ ↦ (raise (exception "AttributeError"), s)
    ]
  ]
]

abbrev pub items_of : List String → Items
items_of [] = Items.nil
items_of (t ∷ ts) = Items.cons (Json.str t) (items_of ts)

-- A list of texts.
abbrev pub texts : List String → Json
texts ts = Json.arr (items_of ts)
