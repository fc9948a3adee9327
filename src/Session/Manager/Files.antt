-- ===== src/Session/Manager/Files.antt =====
-- `_load`, `_repair`, `save`, `get_or_create` and `invalidate` of nanobot/session/manager.py.
use eeebot_self_evolving.Prelude.{
  ℕ, suc, Bool, true, false, Option, none, some, List, [], ◌∷◌, ◌++◌, map, if◌then◌else◌, or_else,
}
use eeebot_self_evolving.Prelude.Json.{Fields}
use eeebot_self_evolving.Prelude.Effects.{ok, raise, exception, Method}
use eeebot_self_evolving.Session.Message.{Message, Session}
use eeebot_self_evolving.Session.Manager.{
  Stamp, falsy, malformed, time, MetaDoc, Line, blank, corrupt, scalar, meta, msg, Manager, Disk,
  put, session_name,
}

-- The variables of the loops in `_load` and `_repair`.
pub record Loaded : Type 0 where
  pub messages : List Message
  pub metadata : Fields
  pub created_at : Option ℕ
  pub updated_at : Option ℕ
  pub last_consolidated : ℕ

abbrev pub nothing_loaded : Loaded
nothing_loaded = record {
  messages = [];
  metadata = Fields.end;
  created_at = none;
  updated_at = none;
  last_consolidated = 0;
}

abbrev pub with_meta : Option ℕ → Option ℕ → MetaDoc → Loaded → Loaded
with_meta created updated d l = record l {
  metadata = or_else d.metadata Fields.end;
  created_at = created;
  updated_at = updated;
  last_consolidated = or_else d.last_consolidated 0;
}

abbrev pub with_message : Message → Loaded → Loaded
with_message m l = record l { messages = l.messages ++ m ∷ [] }

-- The time of a line read by `_load`: a malformed one raises.
abbrev pub strict : Stamp → Option (Option ℕ)
strict falsy = some none
strict malformed = none
strict (time t) = some (some t)

-- The time of a line read by `_repair`, after the time `old` of an earlier line.
abbrev pub lenient : Stamp → Option ℕ → Option ℕ
lenient falsy old = old
lenient malformed old = old
lenient (time t) old = some t

-- The loop of `_load`; `none` is an exception.
unfoldable pub load_lines : List Line → Loaded → Option Loaded
load_lines [] l = some l
load_lines (blank ∷ rest) l = load_lines rest l
load_lines (corrupt ∷ rest) l = none
load_lines (scalar ∷ rest) l = none
load_lines (meta d ∷ rest) l = elim (strict d.created_at) [
  | none ↦ none
  | some created ↦ load_lines rest (with_meta created none d l)
]
load_lines (msg m ∷ rest) l = load_lines rest (with_message m l)

-- The loop of `_repair`, which skips what is no JSON.
unfoldable pub repair_lines : List Line → Loaded → Option Loaded
repair_lines [] l = some l
repair_lines (blank ∷ rest) l = repair_lines rest l
repair_lines (corrupt ∷ rest) l = repair_lines rest l
repair_lines (scalar ∷ rest) l = none
repair_lines (meta d ∷ rest) l =
    repair_lines rest
      (with_meta (lenient d.created_at l.created_at) (lenient d.updated_at l.updated_at) d l)
repair_lines (msg m ∷ rest) l = repair_lines rest (with_message m l)

abbrev pub is_empty : Loaded → Bool
is_empty l = elim l.messages [
  | [] ↦ elim l.metadata [ Fields.end ↦ true | _ ↦ false ]
  | _ ∷ _ ↦ false
]

-- `created_at or datetime.now()`, and the number of the next reading of the clock.
abbrev pub time_or_now : Option ℕ → (ℕ → ℕ) → ℕ → ℕ
time_or_now t now n = or_else t (now n)

abbrev pub next_reading : Option ℕ → ℕ → ℕ
next_reading none n = suc n
next_reading (some _) n = n

-- The session of the variables, when the clock is read for the n-th time next.
unfoldable pub session_of : List ℕ → Loaded → (ℕ → ℕ) → ℕ → Session
session_of key l now n = record {
  key = key;
  messages = l.messages;
  created_at = time_or_now l.created_at now n;
  updated_at = time_or_now l.updated_at now (next_reading l.created_at n);
  metadata = l.metadata;
  last_consolidated = l.last_consolidated;
}

abbrev pub read_clock : Loaded → Manager → Manager
read_clock l m = record m { reads = next_reading l.updated_at (next_reading l.created_at m.reads) }

unfoldable pub repair : Disk → List ℕ → Manager → Option Session × Manager
unfolding session_name repair_lines session_of
repair disk key m = elim (m.files (session_name key)) [
  | none ↦ (none, m)
  | some lines ↦ elim (repair_lines lines nothing_loaded) [
    | none ↦ (none, m)
    | some l ↦
        if is_empty l then (none, m) else (some (session_of key l disk.now m.reads), read_clock l m)
  ]
]

-- `shutil.move` of the legacy file, when there is one and the new file does not exist.
unfoldable pub migrate : Disk → List ℕ → Manager → Manager
unfolding session_name
migrate disk key m = elim (m.files (session_name key)) [
  | some _ ↦ m
  | none ↦ elim (m.legacy (session_name key)) [
    | none ↦ m
    | some lines ↦
        if disk.move_ok key
        then record m {
          files = put m.files (session_name key) (some lines);
          legacy = put m.legacy (session_name key) none;
        }
        else m
  ]
]

-- `_load` after the migration.
unfoldable pub load_file : Disk → List ℕ → Manager → Option Session × Manager
unfolding session_name load_lines session_of repair
load_file disk key m = elim (m.files (session_name key)) [
  | none ↦ (none, m)
  | some lines ↦ elim (load_lines lines nothing_loaded) [
    | none ↦ repair disk key m
    | some l ↦ (some (session_of key l disk.now m.reads), read_clock l m)
  ]
]

unfoldable pub load : Disk → List ℕ → Manager → Option Session × Manager
unfolding migrate load_file
load disk key m = load_file disk key (migrate disk key m)

-- `Session(key=key)`, which reads the clock twice.
unfoldable pub new_session : List ℕ → (ℕ → ℕ) → ℕ → Session
unfolding session_of
new_session key now n = session_of key nothing_loaded now n

-- `self._cache[key] = session`
unfoldable pub remember : Session → Manager → Manager
remember s m = record m { cache = put m.cache s.key (some s) }

-- What `_load` gives, or else a new session.
unfoldable pub found_or_new : Disk → List ℕ → Option Session → Manager → Session × Manager
unfolding new_session remember
found_or_new disk key (some s) m = (s, remember s m)
found_or_new disk key none m =
    let s = new_session key disk.now m.reads in (s, remember s (read_clock nothing_loaded m))

unfoldable pub get_or_create : Disk → List ℕ → Manager → Session × Manager
unfolding load found_or_new
get_or_create disk key m = elim (m.cache key) [
  | some s ↦ (s, m)
  | none ↦ let loaded = load disk key m in found_or_new disk key loaded.0 loaded.1
]

unfoldable pub lines_of : Session → List Line
lines_of s =
    meta (record {
      metadata = some s.metadata;
      created_at = time s.created_at;
      updated_at = time s.updated_at;
      last_consolidated = some s.last_consolidated;
    })
    ∷ map msg s.messages

-- A failed write leaves the file, and the cache, as they were.
unfoldable pub save : Disk → Session → Method Manager Unit
unfolding session_name lines_of remember
save disk s m =
    let m' = record m { writes = suc m.writes } in
    if disk.write_ok m.writes
    then (
      ok tt,
      remember s (record m' { files = put m.files (session_name s.key) (some (lines_of s)) }),
    )
    else (raise (exception "write"), m')

unfoldable pub invalidate : List ℕ → Manager → Manager
invalidate key m = record m { cache = put m.cache key none }
