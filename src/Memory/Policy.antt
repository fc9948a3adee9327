-- ===== src/Memory/Policy.antt =====
-- `MemoryConsolidator` of nanobot/agent/memory.py: the boundary and the loop over the prompt's
-- tokens. The lock makes the loop of a session run alone. The estimates are parameters; a count of
-- tokens that is not positive is 0.
use eeebot_self_evolving.Prelude.{
  ℕ, zero, suc, Bool, true, false, ◌&&◌, Option, none, some, List, [], ◌∷◌, ◌+◌, ◌-◌, ◌/◌, ltb, leb,
  ◌==◌, if◌then◌else◌, take, drop, length,
}
use eeebot_self_evolving.Prelude.Effects.{ok, raise, exception, Method, ◌>>=◌, pure}
use eeebot_self_evolving.Session.Message.{Message, Session, has_role}
use eeebot_self_evolving.Session.Manager.{Manager, Disk}
use eeebot_self_evolving.Session.Manager.Files.{save}
use eeebot_self_evolving.Memory.Store.{World, Memory}
use eeebot_self_evolving.Memory.Consolidate.{consolidate}

abbrev pub max_consolidation_rounds : ℕ
max_consolidation_rounds = 5

pub record Boundary : Type 0 where
  pub index : ℕ
  pub removed_tokens : ℕ

-- The loop over the messages from the index `i` on.
abbrev pub boundary_at : ℕ → ℕ → Boundary
boundary_at i removed = record { index = i; removed_tokens = removed }

-- The loop over the messages from the index `i` on.
unfoldable pub boundary_loop :
    (Message → ℕ) → ℕ → ℕ → List Message → ℕ → ℕ → Option Boundary → Option Boundary
boundary_loop tokens wanted start [] i removed last = last
boundary_loop tokens wanted start (m ∷ ms) i removed last =
    let turn = ltb start i && has_role "user" m in
    let later =
      boundary_loop tokens wanted start ms (suc i) (removed + tokens m)
        (if turn then some (boundary_at i removed) else last) in
    if turn && leb wanted removed then some (boundary_at i removed) else later

unfoldable pub pick_consolidation_boundary : (Message → ℕ) → Session → ℕ → Option Boundary
unfolding boundary_loop
pick_consolidation_boundary tokens s wanted =
    let start = s.last_consolidated in
    if leb (length s.messages) start
    then none
    else if wanted == 0
    then none
    else boundary_loop tokens wanted start (drop start s.messages) start 0 none

-- What the loop works on: the memory, the session and the session manager.
pub record Desk : Type 0 where
  pub memory : Memory
  pub session : Session
  pub manager : Manager

pub record Policy : Type 0 where
  pub world : World
  pub disk : Disk
  pub context_window_tokens : ℕ
  -- `estimate_message_tokens`
  pub message_tokens : Message → ℕ
  -- `estimate_session_prompt_tokens`, when the desk is as it is; `none` is an exception
  pub prompt_tokens : Desk → Option ℕ

module _ (p : Policy) where
  unfoldable pub estimate : Method Desk ℕ
  estimate d = elim (p.prompt_tokens d) [
    | none ↦ (raise (exception "estimate"), d)
    | some n ↦ (ok n, d)
  ]

  unfoldable pub consolidate_messages : List Message → Method Desk Bool
  consolidate_messages chunk d =
      let done = consolidate p.world chunk d.memory in (done.0, record d { memory = done.1 })

  unfoldable pub save_session : Method Desk Unit
  save_session d =
      let saved = save p.disk d.session d.manager in (saved.0, record d { manager = saved.1 })

  abbrev pub set_consolidated : ℕ → Method Desk Unit
  set_consolidated n d = (ok tt, record d { session = record d.session { last_consolidated = n } })

  -- `session.messages[session.last_consolidated:end_idx]`
  abbrev pub chunk_to : ℕ → Session → List Message
  chunk_to end s = take (end - s.last_consolidated) (drop s.last_consolidated s.messages)

  abbrev pub at_least_one : ℕ → ℕ
  at_least_one zero = 1
  at_least_one n = n

  -- The end of a round; `continue` is the next round, on a new estimate.
  unfoldable pub end_round : (ℕ → Method Desk Unit) → ℕ → Bool → Method Desk Unit
  unfolding save_session estimate
  end_round continue end false = pure tt
  end_round continue end true = set_consolidated end >>= λ _.
      save_session >>= λ _. estimate >>= λ n. if n == 0 then pure tt else continue n

  unfoldable pub archive_chunk : (ℕ → Method Desk Unit) → ℕ → List Message → Method Desk Unit
  unfolding consolidate_messages end_round
  archive_chunk continue end [] = pure tt
  archive_chunk continue end (c ∷ cs) = consolidate_messages (c ∷ cs) >>= end_round continue end

  unfoldable pub archive_to : (ℕ → Method Desk Unit) → Option Boundary → Method Desk Unit
  unfolding archive_chunk
  archive_to continue none d = (ok tt, d)
  archive_to continue (some b) d = archive_chunk continue b.index (chunk_to b.index d.session) d

  -- The loop of `maybe_consolidate_by_tokens`.
  unfoldable pub rounds_loop : ℕ → ℕ → ℕ → Method Desk Unit
  unfolding pick_consolidation_boundary archive_to
  rounds_loop zero target estimated d = (ok tt, d)
  rounds_loop (suc rounds) target estimated d =
      let wanted = at_least_one (estimated - target) in
      let boundary = pick_consolidation_boundary p.message_tokens d.session wanted in
      let after = archive_to (rounds_loop rounds target) boundary d in
      if leb estimated target then (ok tt, d) else after

  unfoldable pub within_lock : ℕ → Method Desk Unit
  unfolding rounds_loop
  within_lock estimated =
      if estimated == 0
      then pure tt
      else if ltb estimated p.context_window_tokens
      then pure tt
      else rounds_loop max_consolidation_rounds (p.context_window_tokens / 2) estimated

  unfoldable pub maybe_consolidate_by_tokens : Method Desk Unit
  unfolding estimate within_lock
  maybe_consolidate_by_tokens d =
      if length d.session.messages == 0
      then (ok tt, d)
      else if p.context_window_tokens == 0
      then (ok tt, d)
      else (estimate >>= within_lock) d
