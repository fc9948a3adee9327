-- ===== src/Memory/Store.antt =====
-- `MemoryStore` of nanobot/agent/memory.py: MEMORY.md, HISTORY.md and their consolidation. The
-- files are lists of code points; `_format_messages`, the provider, the clock and the texts of
-- `json` are parameters.
use Prim.Native.String.{String}
use eeebot_self_evolving.Prelude.{
  codes, ℕ, Bool, true, false, ◌&&◌, ◌||◌, Option, none, some, List, [], ◌∷◌, ◌==◌, str_eq,
  if◌then◌else◌, or_else,
}
use eeebot_self_evolving.Prelude.Json.{Json, Items, Fields}
use eeebot_self_evolving.Prelude.Effects.{Result}
use eeebot_self_evolving.Session.Message.{Message}

pub record Response : Type 0 where
  pub finish_reason : String
  pub content : Option (List ℕ)
  -- the arguments of each tool call
  pub tool_calls : List Json

pub record World : Type 0 where
  -- the answer of the n-th `chat_with_retry` to MEMORY.md and the formatted messages, with the
  -- tool forced or not
  pub chat : ℕ → List ℕ → List ℕ → Bool → Result Response
  -- `_format_messages`; `none` is an exception
  pub format_messages : List Message → Option (List ℕ)
  -- whether the n-th write succeeds, and the time of day at it
  pub write_ok : ℕ → Bool
  pub timestamp : ℕ → List ℕ
  -- `json.loads`, `json.dumps`, `str.lower` and `str` of a number
  pub loads : List ℕ → Option Json
  pub dumps : Json → List ℕ
  pub lower : List ℕ → List ℕ
  pub decimal : ℕ → List ℕ

pub record Memory : Type 0 where
  pub memory_file : Option (List ℕ)
  -- the entries of HISTORY.md, each of which an empty line ends
  pub history : List (List ℕ)
  pub consecutive_failures : ℕ
  -- the numbers of the next write and of the next call of the provider
  pub writes : ℕ
  pub calls : ℕ

abbrev pub max_failures_before_raw_archive : ℕ
max_failures_before_raw_archive = 3

unfoldable pub is_prefix : List ℕ → List ℕ → Bool
is_prefix [] text = true
is_prefix (c ∷ cs) [] = false
is_prefix (c ∷ cs) (d ∷ ds) = c == d && is_prefix cs ds

-- `part in text`
unfoldable pub is_inside : List ℕ → List ℕ → Bool
unfolding is_prefix
is_inside part [] = is_prefix part []
is_inside part (c ∷ cs) = is_prefix part (c ∷ cs) || is_inside part cs

abbrev pub dict_get : Fields → String → Option Json
dict_get Fields.end k = none
dict_get (Fields.field j v rest) k =
    let later = dict_get rest k in if str_eq j k then some v else later

-- What `consolidate` makes of the arguments: an exception, a warning, or the two values.
pub data Payload : Type 0 where
  broken refused : Payload
  accepted : (entry update : Json) → Payload

module _ (w : World) where
  unfoldable pub is_tool_choice_unsupported : Option (List ℕ) → Bool
  unfolding is_inside
  is_tool_choice_unsupported content =
      let text = w.lower (or_else content []) in
      is_inside (codes "tool_choice") text
      || (is_inside (codes "toolchoice") text
          || (is_inside (codes "does not support") text
              || is_inside (codes "should be [\"none\", \"auto\"]") text))

  unfoldable pub ensure_text : Json → List ℕ
  ensure_text (Json.str s) = codes s
  ensure_text v = w.dumps v

  -- A list, a dict, or neither: `args` after the first test.
  unfoldable pub dict_of : Json → Option Fields
  dict_of (Json.arr (Items.cons (Json.obj d) _)) = some d
  dict_of (Json.obj d) = some d
  dict_of _ = none

  -- The outer `none` is an exception of `json.loads`.
  unfoldable pub normalize_save_memory_args : Json → Option (Option Fields)
  unfolding dict_of
  normalize_save_memory_args (Json.str s) = elim (w.loads (codes s)) [
    | none ↦ none
    | some args ↦ some (dict_of args)
  ]
  normalize_save_memory_args args = some (dict_of args)

  abbrev pub is_null : Json → Bool
  is_null Json.null = true
  is_null _ = false

  -- Missing or null fields are refused.
  unfoldable pub fields_of : Fields → Payload
  fields_of d = elim (dict_get d "history_entry") [
    | none ↦ refused
    | some entry ↦ elim (dict_get d "memory_update") [
      | none ↦ refused
      | some update ↦ if is_null entry || is_null update then refused else accepted entry update
    ]
  ]

  unfoldable pub payload_of : List Json → Payload
  unfolding normalize_save_memory_args fields_of
  payload_of [] = refused
  payload_of (args ∷ _) = elim (normalize_save_memory_args args) [
    | none ↦ broken
    | some none ↦ refused
    | some (some d) ↦ fields_of d
  ]
