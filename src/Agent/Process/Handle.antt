-- ===== src/Agent/Process/Handle.antt =====
-- `_process_message` and `_dispatch` of nanobot/agent/loop.py.
use eeebot_self_evolving.Prelude.{
  ℕ, suc, true, false, not, Option, none, some, List, [], ◌∷◌, ◌++◌, or_else, if◌then◌else◌, drop,
  length, codes, strip, name_eq,
}
use eeebot_self_evolving.Prelude.Json.{Fields}
use eeebot_self_evolving.Prelude.Effects.{
  Result, ok, raise, exception, cancelled, Method, pure, throw, ◌>>=◌,
}
use eeebot_self_evolving.Session.Message.{Message, clear}
use eeebot_self_evolving.Session.Manager.Files.{invalidate}
use eeebot_self_evolving.Memory.Policy.{Desk, save_session}
use eeebot_self_evolving.Agent.Process.{
  InboundMessage, OutboundMessage, archive, Core, Service, session_key, split_colon, Request,
  shared, on_desk, open_session, schedule, publish, run_turn,
}

module _ (svc : Service) where
  abbrev pub reply : Request → List ℕ → Fields → OutboundMessage
  reply r content metadata = record {
    channel = r.channel;
    chat_id = r.chat_id;
    content = some content;
    metadata = metadata;
  }

  -- `session.clear()`
  abbrev pub clear_session : Method Desk Unit
  clear_session d = (
    ok tt,
    record d {
      session = clear (svc.policy.disk.now d.manager.reads) d.session;
      manager = record d.manager { reads = suc d.manager.reads };
    },
  )

  abbrev pub invalidate_session : Method Core Unit
  invalidate_session c = (
    ok tt,
    record c { desk = record c.desk { manager = invalidate c.desk.session.key c.desk.manager } },
  )

  abbrev pub archive_later : List Message → Method Core Unit
  archive_later [] = pure tt
  archive_later (m ∷ ms) = schedule svc (archive (m ∷ ms))

  -- "/new": the messages that are not yet consolidated are archived later.
  unfoldable pub new_conversation : Method Core Unit
  unfolding shared save_session clear invalidate
  new_conversation c =
      let snapshot = drop c.desk.session.last_consolidated c.desk.session.messages in
      (on_desk svc clear_session >>= λ _. on_desk svc (save_session svc.policy) >>= λ _.
      invalidate_session >>= λ _. archive_later snapshot)
        c

  abbrev pub help_text : List ℕ
  help_text =
      codes
        "🐈 nanobot commands:\n/new — Start a new conversation\n/stop — Stop the current task\n/restart — Restart the bot\n/help — Show available commands"

  abbrev pub system_origin : InboundMessage → List ℕ × List ℕ
  system_origin msg = or_else (split_colon msg.chat_id) (codes "cli", msg.chat_id)

  abbrev pub system_request : InboundMessage → Request
  system_request msg = record {
    channel = (system_origin msg).0;
    chat_id = (system_origin msg).1;
    content = msg.content;
    media = [];
    role_is_user = not (name_eq msg.sender_id (codes "subagent"));
    reports = false;
    metadata = Fields.end;
  }

  abbrev pub user_request : InboundMessage → Request
  user_request msg = record {
    channel = msg.channel;
    chat_id = msg.chat_id;
    content = msg.content;
    media = msg.media;
    role_is_user = true;
    reports = true;
    metadata = msg.metadata;
  }

  abbrev pub system_response : InboundMessage → Option (List ℕ) → OutboundMessage
  system_response msg final =
      reply (system_request msg) (or_else final (codes "Background task completed.")) Fields.end

  -- A message of the channel "system": the origin stands in its `chat_id`.
  unfoldable pub process_system : InboundMessage → Method Core (Option OutboundMessage)
  unfolding run_turn split_colon
  process_system msg =
      let r = system_request msg in
      open_session svc (r.channel ++ b':' ∷ r.chat_id) >>= λ _.
      run_turn svc r >>= λ final. pure (some (system_response msg final))

  -- A message that is no command: nothing is returned when the message tool has sent something.
  unfoldable pub process_chat : InboundMessage → Method Core (Option OutboundMessage)
  unfolding run_turn
  process_chat msg c =
      let r = user_request msg in
      let before = length c.runs in
      (run_turn svc r >>= λ final c'.
      if svc.sent_in_turn (drop before c'.runs)
      then pure none c'
      else pure
          (some (
            reply r
              (or_else final (codes "I've completed processing but have no response to give."))
              msg.metadata))
          c')
        c

  unfoldable pub process_command : InboundMessage → List ℕ → Method Core (Option OutboundMessage)
  unfolding new_conversation process_chat
  process_command msg cmd =
      if name_eq cmd (codes "/new")
      then (new_conversation >>= λ _.
          pure (some (reply (user_request msg) (codes "New session started.") Fields.end)))
      else if name_eq cmd (codes "/help")
      then pure (some (reply (user_request msg) help_text Fields.end))
      else process_chat msg

  unfoldable pub process_user : InboundMessage → List ℕ → Method Core (Option OutboundMessage)
  unfolding process_command
  process_user msg key =
      let raw_cmd = strip msg.content in
      open_session svc key >>= λ _. elim (svc.runtime_command msg raw_cmd) [
        | some response ↦ pure (some response)
        | none ↦ process_command msg (svc.agent.provider.lower raw_cmd)
      ]

  -- `_process_message`; `key` is the optional `session_key`.
  unfoldable pub process_message :
      InboundMessage → Option (List ℕ) → Method Core (Option OutboundMessage)
  unfolding process_system process_user
  process_message msg key =
      if name_eq msg.channel (codes "system")
      then process_system msg
      else process_user msg (or_else key (session_key msg))

  abbrev pub empty_reply : InboundMessage → OutboundMessage
  empty_reply msg = reply (user_request msg) [] msg.metadata

  abbrev pub sorry : InboundMessage → OutboundMessage
  sorry msg = reply (user_request msg) (codes "Sorry, I encountered an error.") Fields.end

  -- `_dispatch`, behind the processing of the message.
  unfoldable pub answered : InboundMessage → Result (Option OutboundMessage) → Method Core Unit
  answered msg (ok (some response)) = publish svc response
  answered msg (ok none) =
      if name_eq msg.channel (codes "cli") then publish svc (empty_reply msg) else pure tt
  answered msg (raise (exception e)) = publish svc (sorry msg)
  answered msg (raise cancelled) = throw cancelled

  unfoldable pub dispatch : InboundMessage → Method Core Unit
  unfolding process_message answered
  dispatch msg c = let done = process_message msg none c in answered msg done.0 done.1

  -- The messages of the bus, one after the other, as the lock has them processed.
  unfoldable pub dispatch_all : List InboundMessage → Core → Core
  unfolding dispatch
  dispatch_all [] c = c
  dispatch_all (msg ∷ rest) c = dispatch_all rest (dispatch msg c).1
