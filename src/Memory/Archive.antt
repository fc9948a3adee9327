-- ===== src/Memory/Archive.antt =====
-- What consolidation does to HISTORY.md (`consolidate`, `_fail_or_raw_archive` and
-- `archive_messages` of nanobot/agent/memory.py).
use eeebot_self_evolving.Prelude.{
  lstrip, name_eq, rstrip, ℕ, String, zero, suc, Bool, true, false, some, List, [], ◌∷◌, ◌++◌, ◌&&◌,
  str_eq, ◌≡◌, ◌≢◌, ◌⊎◌, inl, inr, ◌<◌, ◌≤◌, ◌+◌, refl, ap, ◌∙◌, arith, Bool-cases, length, ltb,
  ltb→lt,
}
use eeebot_self_evolving.Prelude.Effects.{
  Method, and_then, ◌>>=◌, Result, ok, raise, exception, cancelled,
}
use eeebot_self_evolving.Session.Message.{Message}
use eeebot_self_evolving.Memory.Store.{
  Response, World, is_tool_choice_unsupported, Memory, Payload, broken, refused, accepted,
  ensure_text, payload_of,
}
use eeebot_self_evolving.Memory.Consolidate.{
  append_history, write_long_term, raw_archive, fail_or_raw_archive, chat_with_retry, retry,
  update_memory, stored_entry, store_payload, attempt, handled, consolidate, archive_loop,
  archive_messages, read_long_term, raw_entry,
}

-- The messages are archived by one new entry of the history, and the count starts again.
pub record IsArchived (m m' : Memory) : Type 0 where
  pub entry : List ℕ
  pub added : m'.history ≡ m.history ++ entry ∷ []
  pub reset : m'.consecutive_failures ≡ 0

-- Nothing is written, and the failure is counted, below the limit.
pub record IsCounted (m m' : Memory) : Type 0 where
  pub history : m'.history ≡ m.history
  pub memory_file : m'.memory_file ≡ m.memory_file
  pub counted : m'.consecutive_failures ≡ suc m.consecutive_failures
  pub below : suc m.consecutive_failures < 3

abbrev pub Outcome : Memory → Result Bool × Memory → Type 0
Outcome m p = ((p.0 ≡ ok true) × IsArchived m p.1) ⊎ ((p.0 ≡ ok false) × IsCounted m p.1)

-- The fields that the outcome reads are the same.
abbrev Same : Memory → Memory → Type 0
Same m m' =
    (m'.history ≡ m.history)
    × (m'.memory_file ≡ m.memory_file)
    × (m'.consecutive_failures ≡ m.consecutive_failures)

-- The body of the `try` may also raise an exception, with nothing written.
abbrev Tried : Memory → Result Bool × Memory → Type 0
Tried m p = Outcome m p ⊎ ((t : String) × (p.0 ≡ raise (exception t)) × Same m p.1)

module _ (w : World) (disk : (n : ℕ) → w.write_ok n ≡ true) where
  append_history-ok :
      (entry : List ℕ) (m : Memory)
      → append_history w entry m
        ≡ (ok tt, record m { history = m.history ++ rstrip entry ∷ []; writes = suc m.writes })
  unfolding append_history
  append_history-ok entry m = rw (disk m.writes)

  update_memory-ok :
      (current update : List ℕ) (m : Memory)
      → (m' : Memory) × (update_memory w current update m ≡ (ok tt, m')) × (m'.history ≡ m.history)
  unfolding update_memory write_long_term
  update_memory-ok current update m = elim (Bool-cases (name_eq update current)) [
    | inl e ↦ (m, rw e, refl)
    | inr e ↦
        (record m { memory_file = some update; writes = suc m.writes }, rw (e, disk m.writes), refl)
  ]

  stored-ok :
      (current update entry : List ℕ) (m m' : Memory)
      → Same m m'
      → ((stored_entry w current update entry m').0 ≡ ok true)
        × IsArchived m (stored_entry w current update entry m').1
  unfolding stored_entry
  stored-ok current update entry m m' (h, f, c) =
      let written = record m' {
        history = m'.history ++ rstrip entry ∷ [];
        writes = suc m'.writes;
      } in
      let (after, updated, kept) = update_memory-ok current update written in
      rw (append_history-ok entry m', updated)
        (
          refl,
          record {
            entry = rstrip entry;
            added = kept ∙ ap (λ old. old ++ rstrip entry ∷ []) h;
            reset = refl;
          },
        )

  module _ (messages : List Message) (text : List ℕ)
      (formatted : w.format_messages messages ≡ some text) where
    raw_archive-ok :
        (m : Memory)
        → raw_archive w messages m ≡ (
          ok tt,
          record m {
            history = m.history ++ rstrip (raw_entry w m.writes (length messages) text) ∷ [];
            writes = suc m.writes;
          },
        )
    unfolding raw_archive
    raw_archive-ok m =
        rw (formatted, raw_archive)
          (append_history-ok (raw_entry w m.writes (length messages) text) m)

    fail-Outcome : (m m' : Memory) → Same m m' → Outcome m (fail_or_raw_archive w messages m')
    unfolding fail_or_raw_archive
    fail-Outcome m m' (h, f, c) = elim (Bool-cases (ltb (suc m'.consecutive_failures) 3)) [
      | inl e ↦
          let below = ltb→lt (suc m'.consecutive_failures) 3 e in
          rw e (
            inr (
              refl,
              record { history = h; memory_file = f; counted = ap suc c; below = rw c at below },
            ))
      | inr e ↦
          let counted = record m' { consecutive_failures = suc m'.consecutive_failures } in
          rw (e, raw_archive-ok counted)
            (inl (
              refl,
              record {
                entry = _;
                added =
                    ap (λ old. old ++ rstrip (raw_entry w m'.writes (length messages) text) ∷ []) h;
                reset = refl;
              },
            ))
    ]

    store-Outcome :
        (current : List ℕ) (p : Payload) (m m' : Memory)
        → Same m m'
        → Tried m (store_payload w current messages p m')
    unfolding store_payload
    store-Outcome current broken m m' same = inr ("arguments", refl, same)
    store-Outcome current refused m m' same = inl (fail-Outcome m m' same)
    store-Outcome current (accepted entry update) m m' same =
        stored (lstrip (rstrip (ensure_text w entry)))
      where
        stored :
            (t : List ℕ)
            → Tried m (
                (elim t as (λ _. Method Memory Bool) [
                  | [] ↦ fail_or_raw_archive w messages
                  | c ∷ cs ↦ stored_entry w current (ensure_text w update) (c ∷ cs)
                ])
                  m')
        stored [] = inl (fail-Outcome m m' same)
        stored (c ∷ cs) = inl (inl (stored-ok current (ensure_text w update) (c ∷ cs) m m' same))

    module _
        (answers : (n : ℕ) (a b : List ℕ) (forced : Bool)
          → w.chat n a b forced ≢ raise cancelled) where
      answered :
          (r : Result Response) (f : Response → Method Memory Bool) (m m' : Memory)
          → r ≢ raise cancelled
          → ((x : Response) (m'' : Memory) → Same m m'' → Tried m (f x m''))
          → Same m m'
          → Tried m (and_then r f m')
      answered (ok x) f m m' h k same = k x m' same
      answered (raise (exception t)) f m m' h k same = inr (t, refl, same)
      answered (raise cancelled) f m m' h k same = elim (h refl) [ ]

      retry-Tried :
          (x : Response) (f : Response → Method Memory Bool) (m m' : Memory)
          → ((y : Response) (m'' : Memory) → Same m m'' → Tried m (f y m''))
          → Same m m'
          → Tried m (and_then (retry w text x m').0 f (retry w text x m').1)
      unfolding retry chat_with_retry
      retry-Tried x f m m' k same =
          elim (Bool-cases
            (str_eq x.finish_reason "error" && is_tool_choice_unsupported w x.content)) [
              | inl e ↦ rw e (answered _ f m _ (answers _ _ _ _) k same)
              | inr e ↦ rw e (k x m' same)
            ]

      attempt-Tried : (m : Memory) → Tried m (attempt w (read_long_term w m) text messages m)
      unfolding attempt chat_with_retry
      attempt-Tried m =
          let current = read_long_term w m in
          let called = record m { calls = suc m.calls } in
          let store =
            λ (y : Response). store_payload w current messages (payload_of w y.tool_calls) in
          answered (w.chat m.calls current text true) (λ first. retry w text first >>= store) m
            called (answers m.calls current text true)
            (λ first m' same.
              retry-Tried first store m m'
                (λ y m'' same'. store-Outcome current (payload_of w y.tool_calls) m m'' same') same)
            (refl, refl, refl)

      handled-Outcome :
          (m : Memory) (p : Result Bool × Memory)
          → Tried m p
          → Outcome m (handled w messages p.0 p.1)
      unfolding handled
      handled-Outcome m (r, m') (inl (inl (e, a))) = rw e (inl (refl, a))
      handled-Outcome m (r, m') (inl (inr (e, c))) = rw e (inr (refl, c))
      handled-Outcome m (r, m') (inr (t, e, same)) = rw e (fail-Outcome m m' same)

-- When the disk writes, the messages have a text and the provider's calls are not cancelled,
-- consolidating a chunk either archives it by one new entry of the history, returns true and
-- forgets the failures, or returns false, writes nothing and counts a failure below the limit.
pub consolidate_lem :
    (w : World)
    → ((n : ℕ) → w.write_ok n ≡ true)
    → ((n : ℕ) (a b : List ℕ) (forced : Bool) → w.chat n a b forced ≢ raise cancelled)
    → (x : Message) (xs : List Message) (text : List ℕ) → w.format_messages (x ∷ xs) ≡ some text
    → (m : Memory) → Outcome m (consolidate w (x ∷ xs) m)
unfolding consolidate
consolidate_lem w disk answers x xs text formatted m =
    rw (formatted, consolidate)
      (handled-Outcome w disk (x ∷ xs) text formatted answers m
        (attempt w (read_long_term w m) text (x ∷ xs) m)
        (attempt-Tried w disk (x ∷ xs) text formatted answers m))

-- With as many rounds as failures are missing to the limit, the loop archives.
loop_archives :
    (w : World)
    → ((n : ℕ) → w.write_ok n ≡ true)
    → ((n : ℕ) (a b : List ℕ) (forced : Bool) → w.chat n a b forced ≢ raise cancelled)
    → (x : Message) (xs : List Message) (text : List ℕ) → w.format_messages (x ∷ xs) ≡ some text
    → (rounds : ℕ) (m : Memory) → m.consecutive_failures < 3
    → 3 ≤ rounds + m.consecutive_failures
    → ((archive_loop w rounds (x ∷ xs) m).0 ≡ ok true)
      × IsArchived m (archive_loop w rounds (x ∷ xs) m).1
unfolding archive_loop
loop_archives w disk answers x xs text formatted zero m few enough = ground arith
loop_archives w disk answers x xs text formatted (suc rounds) m few enough =
    elim (consolidate_lem w disk answers x xs text formatted m) [
      | inl (e, a) ↦ rw e (refl, a)
      | inr (e, c) ↦
          let m' = (consolidate w (x ∷ xs) m).1 in
          let (done, a) =
            loop_archives w disk answers x xs text formatted rounds m'
              (omega (arith, c.counted, c.below)) (omega (arith, c.counted, enough)) in
          rw e (
            done,
            record {
              entry = a.entry;
              added = a.added ∙ ap (λ old. old ++ a.entry ∷ []) c.history;
              reset = a.reset;
            },
          )
    ]

-- When the disk writes, the messages have a text, the provider's calls are not cancelled and fewer
-- than three failures are counted, `archive_messages` archives the messages: it ends within its
-- three rounds with exactly one new entry of the history and no failure counted.
pub archive_messages_lem :
    (w : World)
    → ((n : ℕ) → w.write_ok n ≡ true)
    → ((n : ℕ) (a b : List ℕ) (forced : Bool) → w.chat n a b forced ≢ raise cancelled)
    → (x : Message) (xs : List Message) (text : List ℕ) → w.format_messages (x ∷ xs) ≡ some text
    → (m : Memory) → m.consecutive_failures < 3
    → ((archive_messages w (x ∷ xs) m).0 ≡ ok true) × IsArchived m (archive_messages w (x ∷ xs) m).1
unfolding archive_messages
archive_messages_lem w disk answers x xs text formatted m few =
    loop_archives w disk answers x xs text formatted 3 m few (omega arith)
