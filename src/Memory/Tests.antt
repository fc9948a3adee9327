-- ===== src/Memory/Tests.antt =====
-- Small runs of the consolidation, and the theorems at them.
use eeebot_self_evolving.Prelude.{
  ℕ, Bool, ◌≡◌, ◌≢◌, refl, true, leb, none, some, String, List, [], ◌∷◌, ◌*◌, ◌-◌, drop, length,
  arith, if◌then◌else◌,
}
use eeebot_self_evolving.Prelude.Json.{Json, Fields, missing, value}
use eeebot_self_evolving.Prelude.Effects.{ok, raise, cancelled}
use eeebot_self_evolving.Session.Message.{Message, Session}
use eeebot_self_evolving.Memory.Store.{World, Memory}
use eeebot_self_evolving.Memory.Consolidate.{consolidate, archive_messages}
use eeebot_self_evolving.Memory.Archive.{Outcome, IsArchived, consolidate_lem, archive_messages_lem}
use eeebot_self_evolving.Memory.Policy.{
  boundary_at, Desk, Policy, pick_consolidation_boundary, maybe_consolidate_by_tokens,
}
use eeebot_self_evolving.Memory.Rounds.{user_turns, first_enough, pick_consolidation_boundary_lem}
use eeebot_self_evolving.Memory.Progress.{Progress, maybe_consolidate_by_tokens_lem}

abbrev said : String → Message
said role = record {
  role = value role;
  content = value (Json.str "text");
  tool_calls = missing;
  tool_call_id = missing;
  name = missing;
  extra = Json.null;
}

abbrev talk : List Message
talk = said "user" ∷ said "assistant" ∷ said "user" ∷ said "assistant" ∷ said "user" ∷ []

-- The tool's arguments, as a good answer has them.
abbrev good_arguments : Json
good_arguments = Json.obj (
    Fields.field "history_entry" (Json.str "entry")
      (Fields.field "memory_update" (Json.str "facts") Fields.end))

-- The provider's first two answers call no tool, and all others do.
abbrev world : World
world = record {
  chat = λ n _ _ _. ok (record {
    finish_reason = "stop";
    content = none;
    tool_calls = if leb n 1 then [] else good_arguments ∷ [];
  });
  format_messages = λ _. some (b'm' ∷ []);
  write_ok = λ _. true;
  timestamp = λ _. [];
  loads = λ _. none;
  dumps = λ _. [];
  lower = λ t. t;
  decimal = λ n. n ∷ [];
}

abbrev fresh : Memory
fresh = record { memory_file = none; history = []; consecutive_failures = 0; writes = 0; calls = 0 }

writes_always : (n : ℕ) → world.write_ok n ≡ true
writes_always n = refl

answers_always : (n : ℕ) (a b : List ℕ) (forced : Bool) → world.chat n a b forced ≢ raise cancelled
answers_always n a b forced h = cc

formats_always : (ms : List Message) → (text : List ℕ) × (world.format_messages ms ≡ some text)
formats_always ms = (b'm' ∷ [], refl)

consolidate_lem_example : Outcome fresh (consolidate world talk fresh)
consolidate_lem_example =
    consolidate_lem world writes_always answers_always (said "user") (drop 1 talk) (b'm' ∷ []) refl
      fresh

archive_messages_lem_example :
    ((archive_messages world talk fresh).0 ≡ ok true)
    × IsArchived fresh (archive_messages world talk fresh).1
archive_messages_lem_example =
    archive_messages_lem world writes_always answers_always (said "user") (drop 1 talk) (b'm' ∷ [])
      refl fresh (omega arith)

abbrev session : Session
session = record {
  key = b'k' ∷ [];
  messages = talk;
  created_at = 0;
  updated_at = 0;
  metadata = Fields.end;
  last_consolidated = 0;
}

boundary_of_session : pick_consolidation_boundary (λ _. 5) session 10 ≡ some (boundary_at 2 10)
boundary_of_session = pick_consolidation_boundary_lem (λ _. 5) session 10

pick_consolidation_boundary_lem_example :
    pick_consolidation_boundary (λ _. 5) session 10
    ≡ first_enough 10 none (user_turns (λ _. 5) 0 talk 0 0)
pick_consolidation_boundary_lem_example = pick_consolidation_boundary_lem (λ _. 5) session 10

abbrev policy : Policy
policy = record {
  world = world;
  disk = record { now = λ n. n; move_ok = λ _. true; write_ok = λ _. true };
  context_window_tokens = 20;
  message_tokens = λ _. 5;
  prompt_tokens = λ d. some (5 * (length d.session.messages - d.session.last_consolidated));
}

abbrev desk : Desk
desk = record {
  memory = record fresh { calls = 2 };
  session = session;
  manager = record {
    cache = λ _. none;
    files = λ _. none;
    legacy = λ _. none;
    reads = 0;
    writes = 0;
  };
}

maybe_consolidate_by_tokens_lem_example : Progress desk (maybe_consolidate_by_tokens policy desk).1
maybe_consolidate_by_tokens_lem_example =
    maybe_consolidate_by_tokens_lem policy writes_always answers_always formats_always desk
