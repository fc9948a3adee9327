-- ===== src/Session/Manager.antt =====
-- `SessionManager`: the cache, the session files and their repair, and `safe_filename` of
-- nanobot/utils/helpers.py. Keys and file names are lists of code points.
pub mod Files
use eeebot_self_evolving.Prelude.{
  name_eq, lstrip, rstrip, ℕ, suc, Bool, true, false, ◌&&◌, ◌||◌, not, Option, none, some, List, [],
  ◌∷◌, ◌++◌, map, ◌==◌, leb, if◌then◌else◌, or_else,
}
use eeebot_self_evolving.Prelude.Json.{Json, Fields}
use eeebot_self_evolving.Prelude.Effects.{Result, ok, raise, exception, Method}
use eeebot_self_evolving.Session.Message.{Message, Session}

-- What `datetime.fromisoformat` makes of a field: falsy, an error, or a time.
pub data Stamp : Type 0 where
  falsy malformed : Stamp
  time : ℕ → Stamp

-- The line of type "metadata".
pub record MetaDoc : Type 0 where
  pub metadata : Option Fields
  pub created_at : Stamp
  pub updated_at : Stamp
  pub last_consolidated : Option ℕ

-- A stripped line: `corrupt` is no JSON, and `scalar` is JSON that is no object.
pub data Line : Type 0 where
  blank corrupt scalar : Line
  meta : MetaDoc → Line
  msg : Message → Line

pub record Manager : Type 0 where
  -- `_cache`
  pub cache : List ℕ → Option Session
  -- the files of the sessions directory and of the legacy directory
  pub files : List ℕ → Option (List Line)
  pub legacy : List ℕ → Option (List Line)
  -- the numbers of the next clock reading and of the next write
  pub reads : ℕ
  pub writes : ℕ

-- The clock, and whether a move from the legacy directory and the n-th write succeed.
pub record Disk : Type 0 where
  pub now : ℕ → ℕ
  pub move_ok : List ℕ → Bool
  pub write_ok : ℕ → Bool

abbrev pub put {ℓ} : {V : Type ℓ} → (List ℕ → V) → List ℕ → V → List ℕ → V
put dict k v j = if name_eq j k then v else dict j

-- `[<>:"/\|?*]`
abbrev pub is_unsafe : ℕ → Bool
is_unsafe c =
    c == b'<'
    || (c == b'>'
        || (c == b':'
            || (c == 34 || (c == b'/' || (c == 92 || (c == b'|' || (c == b'?' || c == b'*')))))))

unfoldable pub safe_filename : List ℕ → List ℕ
safe_filename name = lstrip (rstrip (map (λ c. if is_unsafe c then b'_' else c) name))

-- `key.replace(":", "_")`
abbrev pub no_colon : List ℕ → List ℕ
no_colon key = map (λ c. if c == b':' then b'_' else c) key

-- The name of the file, without the extension ".jsonl" that every name gets.
unfoldable pub session_name : List ℕ → List ℕ
unfolding safe_filename
session_name key = safe_filename (no_colon key)
