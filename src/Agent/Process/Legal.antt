-- ===== src/Agent/Process/Legal.antt =====
-- The sessions that `_process_message` of nanobot/agent/loop.py leaves.
use mathlib.Core.Path.{subst}
use mathlib.Core.List.{append_assoc}
use eeebot_self_evolving.Prelude.{
  ℕ, suc, Bool, true, false, Option, String, List, [], ◌∷◌, ◌++◌, ◌≡◌, refl, sym, ap, ◌∙◌, arith,
  drop, drop-append, drop-length, length, inl, inr, Option-cases, if◌then◌else◌,
}
use eeebot_self_evolving.Prelude.Json.{Json}
use eeebot_self_evolving.Prelude.Effects.{
  ok, Method, Keeps, Keeps-bind, Keeps-pure, bind_ok, ◌>>=◌, pure,
}
use eeebot_self_evolving.Session.Message.{
  Message, declare, declare_all, is_orphan, add_ids, get_history,
}
use eeebot_self_evolving.Session.History.{is_legal}
use eeebot_self_evolving.Session.Sound.{AllSessions, remember-AllSessions, save-AllSessions}
use eeebot_self_evolving.Memory.Policy.{Desk, save_session, maybe_consolidate_by_tokens}
use eeebot_self_evolving.Memory.Steady.{Keeps-maybe_consolidate_by_tokens}
use eeebot_self_evolving.Agent.Loop.{run_agent_loop}
use eeebot_self_evolving.Agent.Pairs.{is_paired, is_paired-is_legal}
use eeebot_self_evolving.Agent.Bounded.{IsUncancelled, run_agent_loop-IsRun}
use eeebot_self_evolving.Agent.Turn.Saved.{save_turn-IsSaved}
use eeebot_self_evolving.Agent.Process.{
  current_content, ran_core, clock, plain_message, schedule_consolidation, Core, Service, Request,
  shared, on_desk, read_history, run_loop, save_turn_of, run_turn, build_messages, initial_messages,
  start_run,
}

-- No tool result without its call.
abbrev pub NoOrphan : List Message → Type 0
NoOrphan ms = is_legal [] ms ≡ true

-- No session has an orphan result, neither the one of the desk nor those of the cache and the files.
pub record IsLegalDesk (d : Desk) : Type 0 where
  pub session : NoOrphan d.session.messages
  pub sessions : AllSessions NoOrphan d.manager

abbrev pub IsLegal : Core → Type 0
IsLegal c = IsLegalDesk c.desk

module _ (svc : Service) where
  shared-IsLegal : (d : Desk) → IsLegalDesk d → IsLegalDesk (shared svc d)
  unfolding shared
  shared-IsLegal d h = elim (Option-cases (d.manager.cache d.session.key)) [
    | inl e ↦ rw (e, shared) h
    | inr (s, e) ↦
        rw (e, shared)
          (record {
            session = h.session;
            sessions =
                remember-AllSessions NoOrphan svc.policy.disk d.session d.manager h.session
                  h.sessions;
          })
  ]

  pub Keeps-on_desk :
      {A : Type 0} (m : Method Desk A)
      → ((d : Desk) → IsLegalDesk d → IsLegalDesk (m d).1)
      → Keeps IsLegal (on_desk svc m)
  Keeps-on_desk m h = record { at = λ c l. shared-IsLegal (m c.desk).1 (h c.desk l) }

  save_session-IsLegal : (d : Desk) → IsLegalDesk d → IsLegalDesk (save_session svc.policy d).1
  unfolding save_session
  save_session-IsLegal d h = record {
    session = h.session;
    sessions = save-AllSessions NoOrphan svc.policy.disk d.session d.manager h.session h.sessions;
  }

  pub Keeps-save_session : Keeps IsLegal (on_desk svc (save_session svc.policy))
  Keeps-save_session = Keeps-on_desk (save_session svc.policy) save_session-IsLegal

  Keeps-consolidate : Keeps IsLegal (on_desk svc (maybe_consolidate_by_tokens svc.policy))
  Keeps-consolidate =
      Keeps-on_desk (maybe_consolidate_by_tokens svc.policy)
        (Keeps-maybe_consolidate_by_tokens svc.policy IsLegalDesk
          (λ d m h. record { session = h.session; sessions = h.sessions })
          (λ n d h. record { session = h.session; sessions = h.sessions }) save_session-IsLegal).at

  current_legal :
      (declared : List String) (content : Json) (added : List Message) (user : Bool)
      → is_paired [] added ≡ true
      → is_legal declared (plain_message (if user then "user" else "assistant") content ∷ added)
        ≡ true
  unfolding is_legal is_orphan declare add_ids
  current_legal declared content added true h = is_paired-is_legal [] declared added tt h
  current_legal declared content added false h = is_paired-is_legal [] declared added tt h

  drop-build :
      (prompt content : Json) (history added : List Message) (role : String)
      → drop (suc (length history)) (build_messages prompt history role content ++ added)
        ≡ plain_message role content ∷ added
  drop-build prompt content history added role =
      let current = plain_message role content in
      ap (drop (length history)) (append_assoc history (current ∷ []) added)
      ∙ drop-append (length history) history (current ∷ added) (omega arith)
      ∙ ap (λ ms. ms ++ current ∷ added) (drop-length history)

  save_turn_of-IsLegal :
      (messages : List Message) (skip : ℕ) (d : Desk)
      → is_legal (declare_all [] d.session.messages) (drop skip messages) ≡ true
      → IsLegalDesk d
      → IsLegalDesk (save_turn_of svc messages skip d).1
  unfolding save_turn_of
  save_turn_of-IsLegal messages skip d h l =
      let saved =
        save_turn-IsSaved (clock svc) messages skip
          (record { session = d.session; reads = d.manager.reads }) h in
      record {
        session = saved.legal l.session;
        sessions = record {
          cached = l.sessions.cached;
          filed = l.sessions.filed;
          legacy = l.sessions.legacy;
        };
      }

  module _ (uncancelled : IsUncancelled svc.agent) (r : Request) (history : List Message) where
    abbrev Ran : Type 0
    Ran = Option (List ℕ) × List Message

    -- What `run_turn` does behind the agent's loop.
    abbrev keep_turn : Ran → Method Core (Option (List ℕ))
    keep_turn done = on_desk svc (save_turn_of svc done.1 (suc (length history))) >>= λ _.
        on_desk svc (save_session svc.policy) >>= λ _.
        schedule_consolidation svc >>= λ _. pure done.0

    Keeps-keep_turn :
        (content : Option (List ℕ)) (c : Core) (added : List Message)
        → is_paired [] added ≡ true
        → Keeps IsLegal (keep_turn (content, initial_messages svc r history c ++ added))
    Keeps-keep_turn content c added h =
        let messages = initial_messages svc r history c ++ added in
        let role = if r.role_is_user then "user" else "assistant" in
        let current = current_content svc r c in
        let legal_tail = λ (d : Desk).
          let declared = declare_all [] d.session.messages in
          ap (is_legal declared) (drop-build (svc.system_prompt c) current history added role)
          ∙ current_legal declared current added r.role_is_user h in
        Keeps-bind (on_desk svc (save_turn_of svc messages (suc (length history)))) _
          (Keeps-on_desk (save_turn_of svc messages (suc (length history)))
            (λ d l. save_turn_of-IsLegal messages (suc (length history)) d (legal_tail d) l))
          (λ _. Keeps-bind (on_desk svc (save_session svc.policy)) _ Keeps-save_session (λ _.
            Keeps-bind (schedule_consolidation svc) _ (record { at = λ d l. l })
              (λ _. Keeps-pure content)))

    Keeps-loop : Keeps IsLegal (run_loop svc r history >>= keep_turn)
    unfolding run_loop
    Keeps-loop = record {
      at = λ c l.
          let run =
            run_agent_loop-IsRun svc.agent r.reports (start_run svc r history c) uncancelled in
          let grown = run.grown in
          let c' = (run_loop svc r history c).1 in
          let ends : run_loop svc r history c ≡ (
            ok (run.content, initial_messages svc r history c ++ grown.added),
            ran_core svc r c (run_agent_loop svc.agent r.reports (start_run svc r history c)).1,
          ) =
            rw (run.returned, run_loop) (rw grown.messages refl) in
          subst (λ q. IsLegal q.1) (sym (bind_ok (run_loop svc r history) keep_turn c ends))
            ((Keeps-keep_turn run.content c grown.added grown.paired).at _ l);
    }

  Keeps-read_history : Keeps IsLegal (read_history svc)
  unfolding read_history
  Keeps-read_history = record {
    at = λ c l. elim (Option-cases (get_history 0 c.desk.session)) [
      | inl e ↦ rw (e, read_history) l
      | inr (history, e) ↦ rw (e, read_history) l
    ];
  }

  pub Keeps-run_turn : IsUncancelled svc.agent → (r : Request) → Keeps IsLegal (run_turn svc r)
  unfolding run_turn
  Keeps-run_turn uncancelled r =
      Keeps-bind (on_desk svc (maybe_consolidate_by_tokens svc.policy)) _ Keeps-consolidate (λ _.
        Keeps-bind (read_history svc) _ Keeps-read_history
          (λ history. Keeps-loop uncancelled r history))
