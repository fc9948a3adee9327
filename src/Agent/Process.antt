-- ===== src/Agent/Process.antt =====
-- The turn of `_process_message` of nanobot/agent/loop.py, with `build_messages` of
-- nanobot/agent/context.py and the messages of nanobot/bus/events.py. Texts are lists of code points.
pub mod Legal
pub mod Sessions
pub mod Handle
use eeebot_self_evolving.Prelude.{
  ℕ, zero, suc, Bool, true, false, ◌&&◌, ◌==◌, not, Option, none, some, String, List, [], ◌∷◌, ◌++◌,
  map, or_else, if◌then◌else◌, drop, length, codes, text_of, strip, name_eq,
}
use eeebot_self_evolving.Prelude.Json.{Json, Items, Fields, missing, value}
use eeebot_self_evolving.Prelude.Effects.{
  Result, ok, raise, exception, cancelled, Method, pure, throw, ◌>>=◌,
}
use eeebot_self_evolving.Runtime.Dict.{dict, assign_all}
use eeebot_self_evolving.Session.Message.{Message, Session, clear, get_history}
use eeebot_self_evolving.Session.Manager.{Manager}
use eeebot_self_evolving.Session.Manager.Files.{get_or_create, remember, invalidate}
use eeebot_self_evolving.Memory.Policy.{Desk, Policy, save_session, maybe_consolidate_by_tokens}
use eeebot_self_evolving.Tools.{Runs}
use eeebot_self_evolving.Providers.Retry.{Attempts}
use eeebot_self_evolving.Agent.{Agent}
use eeebot_self_evolving.Agent.Loop.{Run, run_agent_loop}
use eeebot_self_evolving.Agent.Turn.{Clock, Saving, runtime_context_tag, save_turn}

pub record InboundMessage : Type 0 where
  pub channel : List ℕ
  pub sender_id : List ℕ
  pub chat_id : List ℕ
  pub content : List ℕ
  pub media : List String
  pub metadata : Fields
  pub session_key_override : Option (List ℕ)

-- The content is absent where a hint is `None`.
pub record OutboundMessage : Type 0 where
  pub channel : List ℕ
  pub chat_id : List ℕ
  pub content : Option (List ℕ)
  pub metadata : Fields

-- What `_schedule_background` is given.
pub data Background : Type 0 where
  consolidation : (key : List ℕ) → Background
  archive : List Message → Background

-- The desk has the session that is processed. The bus's outbound queue has its newest message last.
pub record Core : Type 0 where
  pub desk : Desk
  pub attempts : Attempts
  pub runs : Runs
  pub outbound : List OutboundMessage
  pub background : List Background

-- The parts of the agent, and as parameters the system prompt, the time of day, the images of
-- media, the commands of `_handle_runtime_slash_command`, and whether the message tool sent
-- something among the runs of a turn.
pub record Service : Type 0 where
  pub agent : Agent
  pub policy : Policy
  pub isoformat : ℕ → String
  pub show : Json → List ℕ
  pub system_prompt : Core → Json
  pub current_time : Core → List ℕ
  pub images : List String → Items
  pub runtime_command : InboundMessage → List ℕ → Option OutboundMessage
  pub sent_in_turn : Runs → Bool

-- `session_key`
abbrev pub session_key : InboundMessage → List ℕ
session_key msg = or_else msg.session_key_override (msg.channel ++ b':' ∷ msg.chat_id)

-- `text.split(":", 1)`, where there is a colon.
unfoldable pub split_colon : List ℕ → Option (List ℕ × List ℕ)
split_colon [] = none
split_colon (c ∷ cs) =
    let later = split_colon cs in
    if c == b':' then some ([], cs) else elim later [ none ↦ none | some (a, b) ↦ some (c ∷ a, b) ]

abbrev pub plain_message : String → Json → Message
plain_message role content = record {
  role = value role;
  content = value content;
  tool_calls = missing;
  tool_call_id = missing;
  name = missing;
  extra = Json.null;
}

abbrev is_empty : List ℕ → Bool
is_empty [] = true
is_empty _ = false

-- `_build_runtime_context`
abbrev runtime_context : List ℕ → List ℕ → List ℕ → List ℕ
runtime_context time channel chat_id =
    runtime_context_tag
    ++ codes "\nCurrent Time: "
    ++ time
    ++ (if is_empty channel
        then []
        else if is_empty chat_id
        then []
        else codes "\nChannel: " ++ channel ++ codes "\nChat ID: " ++ chat_id)

abbrev text_block : List ℕ → Json
text_block content =
    Json.obj (dict (("type", Json.str "text") ∷ ("text", Json.str (text_of content)) ∷ []))

abbrev then_item : Items → Json → Items
then_item Items.nil last = Items.cons last Items.nil
then_item (Items.cons v rest) last = Items.cons v (then_item rest last)

-- The content of the current message: the runtime context, and the text behind the images, if there are any.
abbrev pub merged_content : List ℕ → List ℕ → Items → Json
merged_content context content Items.nil = Json.str (text_of (context ++ 10 ∷ 10 ∷ content))
merged_content context content images =
    Json.arr (Items.cons (text_block context) (then_item images (text_block content)))

abbrev pub build_messages : Json → List Message → String → Json → List Message
build_messages prompt history role content =
    plain_message "system" prompt ∷ history ++ plain_message role content ∷ []

-- What a turn is about.
pub record Request : Type 0 where
  pub channel : List ℕ
  pub chat_id : List ℕ
  pub content : List ℕ
  pub media : List String
  pub role_is_user : Bool
  pub reports : Bool
  pub metadata : Fields

module _ (svc : Service) where
  abbrev pub clock : Clock
  clock = record { now = svc.policy.disk.now; isoformat = svc.isoformat; show = svc.show }

  -- The session of the cache is the one of the desk.
  unfoldable pub shared : Desk → Desk
  unfolding remember
  shared d = elim (d.manager.cache d.session.key) [
    | none ↦ d
    | some _ ↦ record d { manager = remember d.session d.manager }
  ]

  abbrev pub on_desk : {A : Type 0} → Method Desk A → Method Core A
  on_desk m c = let done = m c.desk in (done.0, record c { desk = shared done.1 })

  abbrev pub open_session : List ℕ → Method Core Unit
  open_session key c =
      let found = get_or_create svc.policy.disk key c.desk.manager in
      (ok tt, record c { desk = record c.desk { session = found.0; manager = found.1 } })

  abbrev pub schedule : Background → Method Core Unit
  schedule job c = (ok tt, record c { background = c.background ++ job ∷ [] })

  abbrev pub schedule_consolidation : Method Core Unit
  schedule_consolidation c = schedule (consolidation c.desk.session.key) c

  abbrev pub publish : OutboundMessage → Method Core Unit
  publish msg c = (ok tt, record c { outbound = c.outbound ++ msg ∷ [] })

  -- `_bus_progress`
  abbrev pub bus_progress : Request → Option (List ℕ) × Bool → OutboundMessage
  bus_progress r (content, is_hint) = record {
    channel = r.channel;
    chat_id = r.chat_id;
    content = content;
    metadata =
        assign_all (("_progress", Json.bool true) ∷ ("_tool_hint", Json.bool is_hint) ∷ [])
          r.metadata;
  }

  -- `session.get_history(max_messages=0)`
  unfoldable pub read_history : Method Core (List Message)
  unfolding get_history
  read_history c = elim (get_history 0 c.desk.session) [
    | none ↦ (raise (exception "role"), c)
    | some history ↦ (ok history, c)
  ]

  abbrev pub images_of : List String → Items
  images_of [] = Items.nil
  images_of (m ∷ ms) = svc.images (m ∷ ms)

  abbrev pub current_content : Request → Core → Json
  current_content r c =
      merged_content (runtime_context (svc.current_time c) r.channel r.chat_id) r.content
        (images_of r.media)

  abbrev pub initial_messages : Request → List Message → Core → List Message
  initial_messages r history c =
      build_messages (svc.system_prompt c) history (if r.role_is_user then "user" else "assistant")
        (current_content r c)

  abbrev pub start_run : Request → List Message → Core → Run
  start_run r history c = record {
    messages = initial_messages r history c;
    tools_used = [];
    attempts = c.attempts;
    runs = c.runs;
    progress = [];
  }

  -- What a run leaves, with its reports on the bus.
  abbrev pub ran_core : Request → Core → Run → Core
  ran_core r c run = record c {
    attempts = run.attempts;
    runs = run.runs;
    outbound = c.outbound ++ map (bus_progress r) run.progress;
  }

  -- `_run_agent_loop` on the built messages: the final content and all messages.
  unfoldable pub run_loop : Request → List Message → Method Core (Option (List ℕ) × List Message)
  unfolding run_agent_loop
  run_loop r history c =
      let ran = run_agent_loop svc.agent r.reports (start_run r history c) in
      elim ran.0 [
        | raise e ↦ (raise e, ran_core r c ran.1)
        | ok content ↦ (ok (content, ran.1.messages), ran_core r c ran.1)
      ]

  -- `_save_turn` on the session of the desk.
  unfoldable pub save_turn_of : List Message → ℕ → Method Desk Unit
  unfolding save_turn
  save_turn_of messages skip d =
      let saved =
        save_turn clock messages skip (record { session = d.session; reads = d.manager.reads }) in
      (
        saved.0,
        record d {
          session = saved.1.session;
          manager = record d.manager { reads = saved.1.reads };
        },
      )

  -- The turn, from the consolidation to the final content.
  unfoldable pub run_turn : Request → Method Core (Option (List ℕ))
  unfolding read_history run_loop save_turn_of shared maybe_consolidate_by_tokens save_session
  run_turn r = on_desk (maybe_consolidate_by_tokens svc.policy) >>= λ _. read_history >>= λ history.
      run_loop r history >>= λ done. on_desk (save_turn_of done.1 (suc (length history))) >>= λ _.
      on_desk (save_session svc.policy) >>= λ _. schedule_consolidation >>= λ _. pure done.0
