-- ===== src/Memory/Progress.antt =====
-- What `maybe_consolidate_by_tokens` of nanobot/agent/memory.py does to the session and the history.
use eeebot_self_evolving.Prelude.{
  ℕ, zero, suc, Bool, true, false, Option, none, some, List, [], ◌∷◌, ◌+◌, ◌-◌, ◌≡◌, ◌≢◌, ◌⊎◌, inl,
  inr, ◌<◌, ◌≤◌, ltb, leb, ◌==◌, ◌/◌, if◌then◌else◌, length, refl, ap, ◌∙◌, arith, Option-cases,
  Bool-cases, length-append,
}
use eeebot_self_evolving.Prelude.Effects.{
  Result, ok, raise, cancelled, Method, and_then, ◌>>=◌, pure,
}
use eeebot_self_evolving.Session.Message.{Message}
use eeebot_self_evolving.Memory.Store.{Memory}
use eeebot_self_evolving.Memory.Consolidate.{consolidate}
use eeebot_self_evolving.Memory.Archive.{IsArchived, IsCounted, consolidate_lem}
use eeebot_self_evolving.Memory.Rounds.{IsInside, pick_consolidation_boundary-IsInside}
use eeebot_self_evolving.Memory.Policy.{
  Boundary, Desk, Policy, estimate, consolidate_messages, save_session, set_consolidated, chunk_to,
  at_least_one, end_round, archive_chunk, archive_to, rounds_loop, within_lock,
  maybe_consolidate_by_tokens, max_consolidation_rounds,
}

abbrev pub mark : Desk → ℕ
mark d = d.session.last_consolidated

abbrev pub entries_of : Desk → ℕ
entries_of d = length d.memory.history

-- No message is touched, the mark of the session only moves forward and stays within the messages,
-- the history only grows, and the mark moves only when the history has grown.
pub record Progress (d d' : Desk) : Type 0 where
  pub messages : d'.session.messages ≡ d.session.messages
  pub key : d'.session.key ≡ d.session.key
  pub forward : mark d ≤ mark d'
  pub within : mark d ≤ length d.session.messages → mark d' ≤ length d'.session.messages
  pub kept : entries_of d ≤ entries_of d'
  pub archived : (mark d' ≡ mark d) ⊎ (entries_of d < entries_of d')

Progress-refl : (d : Desk) → Progress d d
Progress-refl d = record {
  messages = refl;
  key = refl;
  forward = omega arith;
  within = λ h. h;
  kept = omega arith;
  archived = inl refl;
}

Progress-trans : (d d' d'' : Desk) → Progress d d' → Progress d' d'' → Progress d d''
Progress-trans d d' d'' p q = record {
  messages = q.messages ∙ p.messages;
  key = q.key ∙ p.key;
  forward = omega (arith, p.forward, q.forward);
  within = λ h. q.within (p.within h);
  kept = omega (arith, p.kept, q.kept);
  archived = moved p.archived q.archived;
}
  where
    moved :
        (mark d' ≡ mark d) ⊎ (entries_of d < entries_of d')
        → (mark d'' ≡ mark d') ⊎ (entries_of d' < entries_of d'')
        → (mark d'' ≡ mark d) ⊎ (entries_of d < entries_of d'')
    moved (inl e) (inl f) = inl (f ∙ e)
    moved (inl e) (inr g) = inr (omega (arith, p.kept, g))
    moved (inr g) _ = inr (omega (arith, g, q.kept))

-- The method makes progress, whether it returns or raises.
abbrev Steps : {A : Type 0} → Method Desk A → Type 0
Steps m = (d : Desk) → Progress d (m d).1

Steps-and_then :
    {A B : Type 0} (r : Result A) (f : A → Method Desk B) (d : Desk)
    → ((a : A) → Steps (f a))
    → Progress d (and_then r f d).1
Steps-and_then (ok a) f d h = h a d
Steps-and_then (raise e) f d h = Progress-refl d

Steps-bind :
    {A B : Type 0} (m : Method Desk A) (f : A → Method Desk B)
    → Steps m
    → ((a : A) → Steps (f a))
    → Steps (m >>= f)
Steps-bind m f h k d = Progress-trans d (m d).1 _ (h d) (Steps-and_then (m d).0 f (m d).1 k)

module _ (p : Policy) where
  estimate-Steps : Steps (estimate p)
  unfolding estimate
  estimate-Steps d = elim (Option-cases (p.prompt_tokens d)) [
    | inl e ↦ rw (e, estimate) (Progress-refl d)
    | inr (n, e) ↦ rw (e, estimate) (Progress-refl d)
  ]

  save_session-Steps : Steps (save_session p)
  unfolding save_session
  save_session-Steps d = record {
    messages = refl;
    key = refl;
    forward = omega arith;
    within = λ h. h;
    kept = omega arith;
    archived = inl refl;
  }

  continued :
      (continue : ℕ → Method Desk Unit)
      → ((n : ℕ) → Steps (continue n))
      → (n : ℕ) → Steps (if n == 0 then pure tt else continue n)
  continued continue h n d = elim (Bool-cases (n == 0)) [
    | inl e ↦ rw e (Progress-refl d)
    | inr e ↦ rw e (h n d)
  ]

  moved :
      (end : ℕ) (d : Desk) (m : Memory)
      → mark d < end
      → end < length d.session.messages
      → IsArchived d.memory m
      → Progress d (set_consolidated p end (record d { memory = m })).1
  moved end d m low high a =
      let longer : length m.history ≡ length d.memory.history + 1 =
        ap length a.added ∙ length-append d.memory.history (a.entry ∷ []) in
      record {
        messages = refl;
        key = refl;
        forward = omega (arith, low);
        within = λ _. omega (arith, high);
        kept = omega (arith, longer);
        archived = inr (omega (arith, longer));
      }

  unmoved : (d : Desk) (m : Memory) → IsCounted d.memory m → Progress d (record d { memory = m })
  unmoved d m c = record {
    messages = refl;
    key = refl;
    forward = omega arith;
    within = λ h. h;
    kept = rw c.history (omega arith);
    archived = inl refl;
  }

  module _ (disk : (n : ℕ) → p.world.write_ok n ≡ true)
      (answers : (n : ℕ) (a b : List ℕ) (forced : Bool)
        → p.world.chat n a b forced ≢ raise cancelled)
      (formatted : (ms : List Message)
        → (text : List ℕ) × (p.world.format_messages ms ≡ some text)) where
    module _ (continue : ℕ → Method Desk Unit) (further : (n : ℕ) → Steps (continue n)) where
      end_round-false : (end : ℕ) → Steps (end_round p continue end false)
      unfolding end_round
      end_round-false end d = Progress-refl d

      end_round-true :
          (end : ℕ) (d : Desk)
          → Progress (set_consolidated p end d).1 (end_round p continue end true d).1
      unfolding end_round
      end_round-true end d =
          let next = λ (n : ℕ). if n == 0 then pure tt else continue n in
          Steps-bind (save_session p) (λ _. estimate p >>= next) save_session-Steps
            (λ _. Steps-bind (estimate p) next estimate-Steps (continued continue further))
            (set_consolidated p end d).1

      archive_chunk-Steps :
          (end : ℕ) (chunk : List Message) (d : Desk)
          → mark d < end
          → end < length d.session.messages
          → Progress d (archive_chunk p continue end chunk d).1
      unfolding archive_chunk consolidate_messages
      archive_chunk-Steps end [] d low high = Progress-refl d
      archive_chunk-Steps end (c ∷ cs) d low high =
          let (text, f) = formatted (c ∷ cs) in
          let after = record d { memory = (consolidate p.world (c ∷ cs) d.memory).1 } in
          elim (consolidate_lem p.world disk answers c cs text f d.memory) [
            | inl (e, a) ↦ rw e (
                Progress-trans d (set_consolidated p end after).1 _ (moved end d _ low high a)
                  (end_round-true end after))
            | inr (e, c) ↦
                rw e (Progress-trans d after _ (unmoved d _ c) (end_round-false end after))
          ]

      archive_to-Steps :
          (b : Option Boundary) (d : Desk)
          → IsInside (mark d) (length d.session.messages) b
          → Progress d (archive_to p continue b d).1
      unfolding archive_to
      archive_to-Steps none d h = Progress-refl d
      archive_to-Steps (some b) d (low, high) =
          archive_chunk-Steps b.index (chunk_to p b.index d.session) d low high

    rounds_loop-Steps :
        (rounds target estimated : ℕ) → Steps (rounds_loop p rounds target estimated)
    unfolding rounds_loop
    rounds_loop-Steps zero target estimated d = Progress-refl d
    rounds_loop-Steps (suc rounds) target estimated d = elim (Bool-cases (leb estimated target)) [
      | inl e ↦ rw e (Progress-refl d)
      | inr e ↦ rw e (
          archive_to-Steps (rounds_loop p rounds target) (rounds_loop-Steps rounds target) _ d (
            pick_consolidation_boundary-IsInside p.message_tokens d.session
              (at_least_one p (estimated - target))))
    ]

    within_lock-Steps : (estimated : ℕ) → Steps (within_lock p estimated)
    unfolding within_lock
    within_lock-Steps estimated d = elim (Bool-cases (estimated == 0)) [
      | inl e ↦ rw e (Progress-refl d)
      | inr e ↦ elim (Bool-cases (ltb estimated p.context_window_tokens)) [
        | inl f ↦ rw (e, f) (Progress-refl d)
        | inr f ↦
            rw (e, f)
              (rounds_loop-Steps max_consolidation_rounds (p.context_window_tokens / 2) estimated d)
      ]
    ]

    maybe_consolidate-Steps : Steps (maybe_consolidate_by_tokens p)
    unfolding maybe_consolidate_by_tokens
    maybe_consolidate-Steps d = elim (Bool-cases (length d.session.messages == 0)) [
      | inl e ↦ rw e (Progress-refl d)
      | inr e ↦ elim (Bool-cases (p.context_window_tokens == 0)) [
        | inl f ↦ rw (e, f) (Progress-refl d)
        | inr f ↦
            rw (e, f) (Steps-bind (estimate p) (within_lock p) estimate-Steps within_lock-Steps d)
      ]
    ]

-- When the memory's disk writes, the provider's calls are not cancelled and every chunk has a text,
-- consolidating by tokens, whether it returns or raises, touches no message, moves the session's
-- mark only forward and never past the messages, never shortens HISTORY.md, and moves the mark only
-- when HISTORY.md has a new entry.
pub maybe_consolidate_by_tokens_lem :
    (p : Policy)
    → ((n : ℕ) → p.world.write_ok n ≡ true)
    → ((n : ℕ) (a b : List ℕ) (forced : Bool) → p.world.chat n a b forced ≢ raise cancelled)
    → ((ms : List Message) → (text : List ℕ) × (p.world.format_messages ms ≡ some text))
    → (d : Desk) → Progress d (maybe_consolidate_by_tokens p d).1
maybe_consolidate_by_tokens_lem = maybe_consolidate-Steps
