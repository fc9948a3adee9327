-- ===== src/Session/Recovery.antt =====
-- The session files, as `save` writes and `_load` and `_repair` read them (nanobot/session/manager.py).
use eeebot_self_evolving.Prelude.{
  name_eq, ℕ, Bool, true, false, Option, none, some, List, [], ◌∷◌, ◌++◌, map, keep, if◌then◌else◌,
  ◌≡◌, refl, ap, ◌∙◌, arith, Bool-cases, Option-cases, inl, inr, ◌⊎◌,
}
use eeebot_self_evolving.Prelude.Effects.{ok, raise, exception}
use eeebot_self_evolving.Session.Message.{Message, Session}
use eeebot_self_evolving.Session.Manager.{
  Line, blank, corrupt, scalar, meta, msg, Manager, Disk, session_name,
}
use eeebot_self_evolving.Session.Manager.Files.{
  Loaded, nothing_loaded, with_meta, with_message, strict, load_lines, repair_lines, is_empty,
  session_of, repair, migrate, load_file, load, remember, found_or_new, get_or_create, lines_of,
  save, invalidate,
}

append-nil : (xs : List Message) → xs ++ [] ≡ xs
append-nil [] = refl
append-nil (x ∷ xs) = rw (append-nil xs)

append-one :
    (xs : List Message) (m : Message) (ms : List Message) → (xs ++ m ∷ []) ++ ms ≡ xs ++ m ∷ ms
append-one [] m ms = refl
append-one (x ∷ xs) m ms = rw (append-one xs m ms)

name_eq_refl : (k : List ℕ) → name_eq k k ≡ true
name_eq_refl [] = refl
name_eq_refl (x ∷ xs) = let ih = name_eq_refl xs in ground arith

load_lines-messages :
    (ms : List Message) (l : Loaded)
    → load_lines (map msg ms) l ≡ some (record l { messages = l.messages ++ ms })
unfolding load_lines
load_lines-messages [] l = simp append-nil
load_lines-messages (m ∷ ms) l =
    let ih = load_lines-messages ms (with_message m l) in
    ih
    ∙ ap (λ (all : List Message). some (record l { messages = all })) (append-one l.messages m ms)

repair_lines-messages :
    (ms : List Message) (l : Loaded)
    → repair_lines (map msg ms) l ≡ some (record l { messages = l.messages ++ ms })
unfolding repair_lines
repair_lines-messages [] l = simp append-nil
repair_lines-messages (m ∷ ms) l =
    let ih = repair_lines-messages ms (with_message m l) in
    ih
    ∙ ap (λ (all : List Message). some (record l { messages = all })) (append-one l.messages m ms)

-- A line that `json.loads` refuses.
abbrev pub is_readable : Line → Bool
is_readable corrupt = false
is_readable _ = true

repair_lines-keep :
    (lines : List Line) (l : Loaded)
    → repair_lines lines l ≡ repair_lines (keep is_readable lines) l
unfolding repair_lines
repair_lines-keep [] l = refl
repair_lines-keep (blank ∷ rest) l = repair_lines-keep rest l
repair_lines-keep (corrupt ∷ rest) l = repair_lines-keep rest l
repair_lines-keep (scalar ∷ rest) l = refl
repair_lines-keep (meta d ∷ rest) l = repair_lines-keep rest _
repair_lines-keep (msg m ∷ rest) l = repair_lines-keep rest _

-- Some line is corrupt.
abbrev pub all_readable : List Line → Bool
all_readable [] = true
all_readable (line ∷ rest) = if is_readable line then all_readable rest else false

load_lines-corrupt :
    (lines : List Line) (l : Loaded) → all_readable lines ≡ false → load_lines lines l ≡ none
unfolding load_lines
load_lines-corrupt [] l h = cc
load_lines-corrupt (blank ∷ rest) l h = load_lines-corrupt rest l h
load_lines-corrupt (corrupt ∷ rest) l h = refl
load_lines-corrupt (scalar ∷ rest) l h = refl
load_lines-corrupt (meta d ∷ rest) l h = elim (Option-cases (strict d.created_at)) [
  | inl e ↦ ground arith
  | inr (created, e) ↦
      let ih = load_lines-corrupt rest (with_meta created none d l) h in ground arith
]
load_lines-corrupt (msg m ∷ rest) l h = load_lines-corrupt rest _ h

-- The variables that the loops end with on the lines of `s`.
abbrev loaded_of : Option ℕ → Session → Loaded
loaded_of updated s = record {
  messages = s.messages;
  metadata = s.metadata;
  created_at = some s.created_at;
  updated_at = updated;
  last_consolidated = s.last_consolidated;
}

load_lines-lines_of :
    (s : Session) → load_lines (lines_of s) nothing_loaded ≡ some (loaded_of none s)
unfolding load_lines lines_of
load_lines-lines_of s = load_lines-messages s.messages _

repair_lines-lines_of :
    (s : Session)
    → repair_lines (lines_of s) nothing_loaded ≡ some (loaded_of (some s.updated_at) s)
unfolding repair_lines lines_of
repair_lines-lines_of s = repair_lines-messages s.messages _

-- Opening a key whose file holds the lines of `s` gives `s` under that key, as it was saved but for
-- `updated_at`.
pub load-lines_of :
    (disk : Disk) (key : List ℕ) (s : Session) (m : Manager)
    → m.files (session_name key) ≡ some (lines_of s)
    → (load disk key m).0 ≡ some (record s { key = key; updated_at = disk.now m.reads })
unfolding load migrate load_file session_of
load-lines_of disk key s m h = let e = load_lines-lines_of s in ground arith

-- When some lines of the file are no JSON and the others are the lines of a saved session that has
-- a message or metadata, opening the key loses nothing: all messages, the metadata, the
-- consolidation mark and both times of the session come back.
pub load-damaged :
    (disk : Disk) (key : List ℕ) (s : Session) (lines : List Line) (m : Manager)
    → m.files (session_name key) ≡ some lines
    → all_readable lines ≡ false
    → keep is_readable lines ≡ lines_of s
    → is_empty (loaded_of none s) ≡ false
    → (load disk key m).0 ≡ some (record s { key = key })
unfolding load migrate load_file session_of repair
load-damaged disk key s lines m h bad good full =
    let e = repair_lines-lines_of s in
    let e' = repair_lines-keep lines nothing_loaded in
    let e'' = load_lines-corrupt lines nothing_loaded bad in ground arith

-- After a save the file of the name holds the lines, and nothing else of the disk is changed.
save-file :
    (disk : Disk) (key : List ℕ) (s : Session) (m : Manager)
    → session_name key ≡ session_name s.key
    → disk.write_ok m.writes ≡ true
    → ((save disk s m).1.files (session_name key) ≡ some (lines_of s))
      × ((save disk s m).1.reads ≡ m.reads)
unfolding save remember
save-file disk key s m same good = let k = name_eq_refl (session_name s.key) in ground arith

-- What `get_or_create` gives for a key that is not cached.
get_or_create-load :
    (disk : Disk) (key : List ℕ) (s : Session) (m : Manager)
    → m.cache key ≡ none
    → (load disk key m).0 ≡ some s
    → (get_or_create disk key m).0 ≡ s
unfolding get_or_create found_or_new
get_or_create-load disk key s m h e = ground arith

invalidate-cache : (key : List ℕ) (m : Manager) → (invalidate key m).cache key ≡ none
unfolding invalidate
invalidate-cache key m = let k = name_eq_refl key in ground arith

invalidate-files :
    (key : List ℕ) (m : Manager)
    → ((invalidate key m).files ≡ m.files) × ((invalidate key m).reads ≡ m.reads)
unfolding invalidate
invalidate-files key m = (refl, refl)

-- A session that was saved and is opened again from its file, under its own key or under any other
-- key with the same file name, comes back with all its messages, its metadata, its creation time
-- and its consolidation mark; its key is the one asked for, and `updated_at` is the time of opening.
pub get_or_create-save :
    (disk : Disk) (key : List ℕ) (s : Session) (m : Manager)
    → session_name key ≡ session_name s.key
    → disk.write_ok m.writes ≡ true
    → (get_or_create disk key (invalidate key (save disk s m).1)).0
      ≡ record s { key = key; updated_at = disk.now m.reads }
get_or_create-save disk key s m same good =
    let m' = (save disk s m).1 in
    let f = save-file disk key s m same good in
    let i = invalidate-files key m' in
    let e =
      load-lines_of disk key s (invalidate key m')
        (ap (λ files. files (session_name key)) i.0 ∙ f.0) in
    get_or_create-load disk key _ (invalidate key m') (invalidate-cache key m')
      (e ∙ ap (λ n. some (record s { key = key; updated_at = disk.now n })) (i.1 ∙ f.1))

-- What a `save` changes when it writes.
pub record IsSaved (s : Session) (m m' : Manager) : Type 0 where
  pub file : m'.files (session_name s.key) ≡ some (lines_of s)
  pub cached : m'.cache s.key ≡ some s
  pub others :
      (name : List ℕ) → name_eq name (session_name s.key) ≡ false → m'.files name ≡ m.files name

-- `save` is atomic: either it returns, the session's file holds its lines, the cache holds the
-- session and no other file is touched, or it raises, and the cache and every file are as before.
pub save_lem :
    (disk : Disk) (s : Session) (m : Manager)
    → let (r, m') = save disk s m in
      ((r ≡ ok tt) × IsSaved s m m')
      ⊎ ((r ≡ raise (exception "write")) × (m'.cache ≡ m.cache) × (m'.files ≡ m.files))
unfolding save remember
save_lem disk s m = elim (Bool-cases (disk.write_ok m.writes)) [
  | inl e ↦
      let k = name_eq_refl s.key in
      let n = name_eq_refl (session_name s.key) in
      rw e
        (inl (refl, record { file = rw n refl; cached = rw k refl; others = λ name h. rw h refl }))
  | inr e ↦ rw e (inr (refl, refl, refl))
]
