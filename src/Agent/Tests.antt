-- ===== src/Agent/Tests.antt =====
-- A run with one tool call, a conversation of two messages, and the theorems at them.
use eeebot_self_evolving.Prelude.{
  zero, true, false, none, some, String, [], ◌∷◌, ◌≡◌, ◌≢◌, inl, inr, str_eq, Bool-cases, codes,
}
use eeebot_self_evolving.Prelude.Json.{Json, Items, Fields, missing, value}
use eeebot_self_evolving.Prelude.Effects.{ok, raise, cancelled}
use eeebot_self_evolving.Memory.Store.{is_prefix, World}
use eeebot_self_evolving.Memory.Policy.{Policy}
use eeebot_self_evolving.Session.Message.{Message, Session}
use eeebot_self_evolving.Tools.{
  Tool, Runs, text, execute_tool, not_found, find_tool, run_cast, run_valid, run_tool, hinted,
  reported,
}
use eeebot_self_evolving.Providers.Retry.{ToolCallRequest, plain_response, Provider}
use eeebot_self_evolving.Agent.{Agent}
use eeebot_self_evolving.Agent.Loop.{Run}
use eeebot_self_evolving.Agent.Turn.{Clock, Saving}
use eeebot_self_evolving.Agent.Process.{InboundMessage, Core, Service}

abbrev echo : Tool
echo = record {
  name = "echo";
  definition = Json.null;
  cast_params = λ params. ok params;
  validate_params = λ _. ok [];
  execute = λ _. ok (text (b'x' ∷ []));
}

abbrev call : ToolCallRequest
call = record {
  id = "c1";
  name = "echo";
  arguments = Fields.end;
  provider_specific_fields = Fields.end;
  function_provider_specific_fields = Fields.end;
}

-- A call of the tool at first, and then an answer.
abbrev provider : Provider
provider = record {
  chat = λ n _. elim n [
    | zero ↦ ok (record (plain_response none "tool_calls") { tool_calls = call ∷ [] })
    | _ ↦ ok (plain_response (some (codes "done")) "stop")
  ];
  lower = λ t. t;
  show = λ _. "";
}

abbrev agent : Agent
agent = record {
  provider = provider;
  tools = echo ∷ [];
  max_iterations = 3;
  dumps = λ _. "{}";
  decimal = λ _. codes "3";
}

tools :
    (name : String) (args : Fields) (runs : Runs)
    → (execute_tool (echo ∷ []) name args runs).0 ≢ raise cancelled
unfolding execute_tool find_tool run_cast run_valid run_tool hinted reported is_prefix
tools name args runs h = elim (Bool-cases (str_eq "echo" name)) [
  | inl e ↦ let out : ok (text (b'x' ∷ [])) ≡ raise cancelled = rw (e, execute_tool) at h in cc
  | inr e ↦
      let out : ok (text (not_found name (echo ∷ []))) ≡ raise cancelled =
        rw (e, execute_tool) at h in
      cc
]

abbrev user : Message
user = record {
  role = value "user";
  content = value (Json.str "hi");
  tool_calls = missing;
  tool_call_id = missing;
  name = missing;
  extra = Json.null;
}

abbrev start : Run
start = record {
  messages = user ∷ [];
  tools_used = [];
  attempts = record { calls = 0; slept = [] };
  runs = [];
  progress = [];
}

abbrev clock : Clock
clock = record { now = λ n. n; isoformat = λ _. ""; show = λ _. [] }

abbrev session : Session
session = record {
  key = codes "cli:direct";
  messages = [];
  created_at = 0;
  updated_at = 0;
  metadata = Fields.end;
  last_consolidated = 0;
}

abbrev saving : Saving
saving = record { session = session; reads = 0 }

abbrev world : World
world = record {
  chat = λ n _ _ _. raise cancelled;
  format_messages = λ _. none;
  write_ok = λ _. true;
  timestamp = λ _. [];
  loads = λ _. none;
  dumps = λ _. [];
  lower = λ t. t;
  decimal = λ n. n ∷ [];
}

abbrev policy : Policy
policy = record {
  world = world;
  disk = record { now = λ n. n; move_ok = λ _. true; write_ok = λ _. true };
  context_window_tokens = 0;
  message_tokens = λ _. 1;
  prompt_tokens = λ _. none;
}

abbrev service : Service
service = record {
  agent = agent;
  policy = policy;
  isoformat = λ _. "";
  show = λ _. [];
  system_prompt = λ _. Json.str "prompt";
  current_time = λ _. codes "now";
  images = λ _. Items.nil;
  runtime_command = λ _ _. none;
  sent_in_turn = λ _. false;
}

abbrev core : Core
core = record {
  desk = record {
    memory = record {
      memory_file = none;
      history = [];
      consecutive_failures = 0;
      writes = 0;
      calls = 0;
    };
    session = session;
    manager = record {
      cache = λ _. none;
      files = λ _. none;
      legacy = λ _. none;
      reads = 0;
      writes = 0;
    };
  };
  attempts = record { calls = 0; slept = [] };
  runs = [];
  outbound = [];
  background = [];
}

abbrev inbound : String → InboundMessage
inbound content = record {
  channel = codes "cli";
  sender_id = codes "user";
  chat_id = codes "direct";
  content = codes content;
  media = [];
  metadata = Fields.end;
  session_key_override = none;
}
