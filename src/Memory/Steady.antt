-- ===== src/Memory/Steady.antt =====
-- What `maybe_consolidate_by_tokens` of nanobot/agent/memory.py leaves of a session, whatever fails.
use eeebot_self_evolving.Prelude.{
  ℕ, zero, suc, Bool, true, false, Option, none, some, List, [], ◌∷◌, inl, inr, Bool-cases,
  Option-cases, leb, ltb, ◌==◌, length, ◌-◌, ◌/◌,
}
use eeebot_self_evolving.Prelude.Effects.{Method, Keeps, Keeps-bind, Keeps-if, Keeps-pure, pure}
use eeebot_self_evolving.Session.Message.{Message}
use eeebot_self_evolving.Memory.Store.{Memory}
use eeebot_self_evolving.Memory.Policy.{
  Boundary, Desk, Policy, estimate, consolidate_messages, save_session, end_round, archive_chunk,
  archive_to, rounds_loop, within_lock, maybe_consolidate_by_tokens, max_consolidation_rounds,
  pick_consolidation_boundary, chunk_to, set_consolidated, at_least_one,
}

-- A predicate that a new memory, a new mark of the session and a save keep.
module _ (p : Policy) (P : Desk → Type 0)
    (remembered : (d : Desk) (m : Memory) → P d → P (record d { memory = m }))
    (marked : (n : ℕ) (d : Desk) → P d → P (set_consolidated p n d).1)
    (saved : (d : Desk) → P d → P (save_session p d).1) where
  Keeps-estimate : Keeps P (estimate p)
  unfolding estimate
  Keeps-estimate = record {
    at = λ d h. elim (Option-cases (p.prompt_tokens d)) [
      | inl e ↦ rw (e, estimate) h
      | inr (n, e) ↦ rw (e, estimate) h
    ];
  }

  Keeps-save_session : Keeps P (save_session p)
  Keeps-save_session = record { at = saved }

  module _ (continue : ℕ → Method Desk Unit) (further : (n : ℕ) → Keeps P (continue n)) where
    Keeps-end_round : (end : ℕ) (done : Bool) → Keeps P (end_round p continue end done)
    unfolding end_round
    Keeps-end_round end false = Keeps-pure tt
    Keeps-end_round end true =
        Keeps-bind (set_consolidated p end) _ (record { at = marked end })
          (λ _. Keeps-bind (save_session p) _ Keeps-save_session (λ _.
            Keeps-bind (estimate p) _ Keeps-estimate
              (λ n. Keeps-if (n == 0) (pure tt) (continue n) (Keeps-pure tt) (further n))))

    Keeps-archive_chunk :
        (end : ℕ) (chunk : List Message) → Keeps P (archive_chunk p continue end chunk)
    unfolding archive_chunk consolidate_messages
    Keeps-archive_chunk end [] = Keeps-pure tt
    Keeps-archive_chunk end (c ∷ cs) =
        Keeps-bind (consolidate_messages p (c ∷ cs)) _ (record { at = λ d h. remembered d _ h })
          (Keeps-end_round end)

    Keeps-archive_to : (b : Option Boundary) → Keeps P (archive_to p continue b)
    unfolding archive_to
    Keeps-archive_to none = record { at = λ d h. h }
    Keeps-archive_to (some b) = record {
      at = λ d h. (Keeps-archive_chunk b.index (chunk_to p b.index d.session)).at d h;
    }

  Keeps-rounds_loop :
      (rounds target estimated : ℕ) → Keeps P (rounds_loop p rounds target estimated)
  unfolding rounds_loop
  Keeps-rounds_loop zero target estimated = record { at = λ d h. h }
  Keeps-rounds_loop (suc rounds) target estimated = record {
    at = λ d h. elim (Bool-cases (leb estimated target)) [
      | inl e ↦ rw e h
      | inr e ↦
          let wanted = at_least_one p (estimated - target) in
          rw e (
            (Keeps-archive_to (rounds_loop p rounds target) (Keeps-rounds_loop rounds target)
                (pick_consolidation_boundary p.message_tokens d.session wanted)).at
              d h)
    ];
  }

  Keeps-within_lock : (estimated : ℕ) → Keeps P (within_lock p estimated)
  unfolding within_lock
  Keeps-within_lock estimated = Keeps-if (estimated == 0) _ _ (Keeps-pure tt) (
      Keeps-if (ltb estimated p.context_window_tokens) _ _ (Keeps-pure tt)
        (Keeps-rounds_loop max_consolidation_rounds (p.context_window_tokens / 2) estimated))

  pub Keeps-maybe_consolidate_by_tokens : Keeps P (maybe_consolidate_by_tokens p)
  unfolding maybe_consolidate_by_tokens
  Keeps-maybe_consolidate_by_tokens = record {
    at = λ d h. elim (Bool-cases (length d.session.messages == 0)) [
      | inl e ↦ rw e h
      | inr e ↦ elim (Bool-cases (p.context_window_tokens == 0)) [
        | inl f ↦ rw (e, f) h
        | inr f ↦
            rw (e, f)
              ((Keeps-bind (estimate p) (within_lock p) Keeps-estimate Keeps-within_lock).at d h)
      ]
    ];
  }
