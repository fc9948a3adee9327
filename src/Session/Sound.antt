-- ===== src/Session/Sound.antt =====
-- What holds of all sessions of the manager, in its cache and in its files
-- (nanobot/session/manager.py).
use mathlib.Core.Path.{subst}
use mathlib.Core.List.{append_assoc, append-nil}
use eeebot_self_evolving.Prelude.{
  ℕ, Option, none, some, List, [], ◌∷◌, ◌++◌, map, ◌≡◌, refl, sym, ap, ◌∙◌, Option-cases,
  Bool-cases, inl, inr, name_eq,
}
use eeebot_self_evolving.Session.Message.{Message, Session}
use eeebot_self_evolving.Session.Manager.{
  Line, blank, corrupt, scalar, meta, msg, Manager, Disk, put, session_name,
}
use eeebot_self_evolving.Session.Manager.Files.{
  Loaded, nothing_loaded, with_meta, with_message, strict, load_lines, repair_lines, is_empty,
  session_of, repair, migrate, load_file, load, remember, found_or_new, new_session, get_or_create,
  lines_of, read_clock, save, invalidate,
}

abbrev pub messages_of : List Line → List Message
messages_of [] = []
messages_of (msg m ∷ rest) = m ∷ messages_of rest
messages_of (_ ∷ rest) = messages_of rest

messages_of-lines : (ms : List Message) → messages_of (map msg ms) ≡ ms
messages_of-lines [] = refl
messages_of-lines (m ∷ ms) = ap (λ rest. m ∷ rest) (messages_of-lines ms)

load_lines-messages_of :
    (lines : List Line) (l l' : Loaded)
    → load_lines lines l ≡ some l'
    → l'.messages ≡ l.messages ++ messages_of lines
unfolding load_lines
load_lines-messages_of [] l l' h =
    let same : l ≡ l' = cc in
    ap (λ (x : Loaded). x.messages) (sym same) ∙ sym (append-nil l.messages)
load_lines-messages_of (blank ∷ rest) l l' h = load_lines-messages_of rest l l' h
load_lines-messages_of (corrupt ∷ rest) l l' h = cc
load_lines-messages_of (scalar ∷ rest) l l' h = cc
load_lines-messages_of (meta d ∷ rest) l l' h = elim (Option-cases (strict d.created_at)) [
  | inl e ↦ let bad : none ≡ some l' = rw (e, load_lines) at h in cc
  | inr (created, e) ↦
      let h' : load_lines rest (with_meta created none d l) ≡ some l' = rw (e, load_lines) at h in
      load_lines-messages_of rest (with_meta created none d l) l' h'
]
load_lines-messages_of (msg m ∷ rest) l l' h =
    load_lines-messages_of rest (with_message m l) l' h
    ∙ append_assoc l.messages (m ∷ []) (messages_of rest)

repair_lines-messages_of :
    (lines : List Line) (l l' : Loaded)
    → repair_lines lines l ≡ some l'
    → l'.messages ≡ l.messages ++ messages_of lines
unfolding repair_lines
repair_lines-messages_of [] l l' h =
    let same : l ≡ l' = cc in
    ap (λ (x : Loaded). x.messages) (sym same) ∙ sym (append-nil l.messages)
repair_lines-messages_of (blank ∷ rest) l l' h = repair_lines-messages_of rest l l' h
repair_lines-messages_of (corrupt ∷ rest) l l' h = repair_lines-messages_of rest l l' h
repair_lines-messages_of (scalar ∷ rest) l l' h = cc
repair_lines-messages_of (meta d ∷ rest) l l' h = repair_lines-messages_of rest _ l' h
repair_lines-messages_of (msg m ∷ rest) l l' h =
    repair_lines-messages_of rest (with_message m l) l' h
    ∙ append_assoc l.messages (m ∷ []) (messages_of rest)

-- `P` holds of the messages of every session in the cache and in the files.
pub record AllSessions (P : List Message → Type 0) (m : Manager) : Type 0 where
  pub cached : (key : List ℕ) (s : Session) → m.cache key ≡ some s → P s.messages
  pub filed :
      (name : List ℕ) (lines : List Line) → m.files name ≡ some lines → P (messages_of lines)
  pub legacy :
      (name : List ℕ) (lines : List Line) → m.legacy name ≡ some lines → P (messages_of lines)

-- An entry of a dict after an assignment is an old one or the new one.
put_case :
    {V : Type 0} (Q : V → Type 0) (dict : List ℕ → Option V) (k : List ℕ) (o : Option V)
    → ((i : List ℕ) (u : V) → dict i ≡ some u → Q u)
    → ((u : V) → o ≡ some u → Q u)
    → (j : List ℕ) (v : V) → put dict k o j ≡ some v
    → Q v
put_case Q dict k o old new j v h = elim (Bool-cases (name_eq j k)) [
  | inl e ↦ new v (rw e at h)
  | inr e ↦ old j v (rw e at h)
]

no_entry : {V : Type 0} (Q : V → Type 0) (u : V) → none ≡ some u → Q u
no_entry Q u h = absurd cc

entry : {V : Type 0} (Q : V → Type 0) (w u : V) → Q w → some w ≡ some u → Q u
entry Q w u q h = let same : w ≡ u = cc in subst Q same q

module _ (P : List Message → Type 0) (disk : Disk) where
  abbrev OfSession : Session → Type 0
  OfSession s = P s.messages

  abbrev OfLines : List Line → Type 0
  OfLines lines = P (messages_of lines)

  -- What opening a session gives.
  record Found (q : Option Session × Manager) : Type 0 where
    session : (s : Session) → q.0 ≡ some s → P s.messages
    manager : AllSessions P q.1

  not_found : (m : Manager) → AllSessions P m → Found (none, m)
  not_found m h = record { session = λ s e. absurd cc; manager = h }

  found :
      (key : List ℕ) (l : Loaded) (lines : List Line) (m : Manager)
      → l.messages ≡ messages_of lines
      → P (messages_of lines)
      → AllSessions P m
      → Found (some (session_of key l disk.now m.reads), read_clock l m)
  unfolding session_of
  found key l lines m e p h = record {
    session = λ s f. entry OfSession (session_of key l disk.now m.reads) s (subst P (sym e) p) f;
    manager = record { cached = h.cached; filed = h.filed; legacy = h.legacy };
  }

  repair-Found : (key : List ℕ) (m : Manager) → AllSessions P m → Found (repair disk key m)
  unfolding repair
  repair-Found key m h = elim (Option-cases (m.files (session_name key))) [
    | inl e ↦ rw (e, repair) (not_found m h)
    | inr (lines, e) ↦ elim (Option-cases (repair_lines lines nothing_loaded)) [
      | inl f ↦ rw (e, f, repair) (not_found m h)
      | inr (l, f) ↦ elim (Bool-cases (is_empty l)) [
        | inl g ↦ rw (e, f, g, repair) (not_found m h)
        | inr g ↦
            rw (e, f, g, repair)
              (found key l lines m (repair_lines-messages_of lines nothing_loaded l f)
                (h.filed (session_name key) lines e) h)
      ]
    ]
  ]

  load_file-Found : (key : List ℕ) (m : Manager) → AllSessions P m → Found (load_file disk key m)
  unfolding load_file
  load_file-Found key m h = elim (Option-cases (m.files (session_name key))) [
    | inl e ↦ rw (e, load_file) (not_found m h)
    | inr (lines, e) ↦ elim (Option-cases (load_lines lines nothing_loaded)) [
      | inl f ↦ rw (e, f, load_file) (repair-Found key m h)
      | inr (l, f) ↦
          rw (e, f, load_file)
            (found key l lines m (load_lines-messages_of lines nothing_loaded l f)
              (h.filed (session_name key) lines e) h)
    ]
  ]

  moved :
      (key : List ℕ) (lines : List Line) (m : Manager)
      → m.legacy (session_name key) ≡ some lines
      → AllSessions P m
      → AllSessions P (record m {
        files = put m.files (session_name key) (some lines);
        legacy = put m.legacy (session_name key) none;
      })
  moved key lines m e h = record {
    cached = h.cached;
    filed =
        put_case OfLines m.files (session_name key) (some lines) h.filed
          (λ u f. entry OfLines lines u (h.legacy (session_name key) lines e) f);
    legacy = put_case OfLines m.legacy (session_name key) none h.legacy (no_entry OfLines);
  }

  migrate-AllSessions :
      (key : List ℕ) (m : Manager) → AllSessions P m → AllSessions P (migrate disk key m)
  unfolding migrate
  migrate-AllSessions key m h = elim (Option-cases (m.files (session_name key))) [
    | inr (lines, e) ↦ rw (e, migrate) h
    | inl e ↦ elim (Option-cases (m.legacy (session_name key))) [
      | inl f ↦ rw (e, f, migrate) h
      | inr (lines, f) ↦ elim (Bool-cases (disk.move_ok key)) [
        | inl g ↦ rw (e, f, g, migrate) (moved key lines m f h)
        | inr g ↦ rw (e, f, g, migrate) h
      ]
    ]
  ]

  pub remember-AllSessions :
      (s : Session) (m : Manager) → P s.messages → AllSessions P m → AllSessions P (remember s m)
  unfolding remember
  remember-AllSessions s m p h = record {
    cached = put_case OfSession m.cache s.key (some s) h.cached (λ u f. entry OfSession s u p f);
    filed = h.filed;
    legacy = h.legacy;
  }

  found_or_new_sound :
      (key : List ℕ) (o : Option Session) (m : Manager)
      → P []
      → Found (o, m)
      → let q = found_or_new disk key o m in P q.0.messages × AllSessions P q.1
  unfolding found_or_new new_session session_of
  found_or_new_sound key (some s) m p f =
      (f.session s refl, remember-AllSessions s m (f.session s refl) f.manager)
  found_or_new_sound key none m p f =
      let h = f.manager in
      (
        p,
        remember-AllSessions (new_session key disk.now m.reads) (read_clock nothing_loaded m) p
            (record { cached = h.cached; filed = h.filed; legacy = h.legacy }),
      )

  -- The session that is opened has the property, too.
  pub get_or_create_sound :
      (key : List ℕ) (m : Manager)
      → P []
      → AllSessions P m
      → let q = get_or_create disk key m in P q.0.messages × AllSessions P q.1
  unfolding get_or_create load
  get_or_create_sound key m p h = elim (Option-cases (m.cache key)) [
    | inr (s, e) ↦ rw (e, get_or_create) (h.cached key s e, h)
    | inl e ↦
        let f = load_file-Found key (migrate disk key m) (migrate-AllSessions key m h) in
        let l = load disk key m in rw (e, get_or_create) (found_or_new_sound key l.0 l.1 p f)
  ]

  pub save-AllSessions :
      (s : Session) (m : Manager) → P s.messages → AllSessions P m → AllSessions P (save disk s m).1
  unfolding save lines_of
  save-AllSessions s m p h = elim (Bool-cases (disk.write_ok m.writes)) [
    | inr e ↦ rw (e, save) (record { cached = h.cached; filed = h.filed; legacy = h.legacy })
    | inl e ↦
        let p' : P (messages_of (lines_of s)) = subst P (sym (messages_of-lines s.messages)) p in
        rw (e, save)
          (remember-AllSessions s _ p (record {
            cached = h.cached;
            filed =
                put_case OfLines m.files (session_name s.key) (some (lines_of s)) h.filed
                  (λ u f. entry OfLines (lines_of s) u p' f);
            legacy = h.legacy;
          }))
  ]

  pub invalidate-AllSessions :
      (key : List ℕ) (m : Manager) → AllSessions P m → AllSessions P (invalidate key m)
  unfolding invalidate
  invalidate-AllSessions key m h = record {
    cached = put_case OfSession m.cache key none h.cached (no_entry OfSession);
    filed = h.filed;
    legacy = h.legacy;
  }
