-- ===== src/Session/Tests.antt =====
-- Small sessions and their files, and the theorems at them.
use eeebot_self_evolving.Prelude.{
  ◌+◌, ltb, ◌≡◌, refl, true, none, some, String, List, [], ◌∷◌, drop, map, keep,
}
use eeebot_self_evolving.Prelude.Json.{Json, Fields, missing, value}
use eeebot_self_evolving.Session.Message.{
  Message, Session, find_legal_start, window, get_history, entry, entries, legal_loop, from_user,
  declare, declare_all, is_orphan, member, add_ids, shortened,
}
use eeebot_self_evolving.Session.History.{is_legal, get_history_legal}
use eeebot_self_evolving.Session.Manager.{corrupt, Manager, Disk, session_name, safe_filename}
use eeebot_self_evolving.Session.Manager.Files.{save, load, get_or_create, invalidate, lines_of}
use eeebot_self_evolving.Session.Recovery.{is_readable, load-damaged, get_or_create-save}

abbrev plain : String → String → Message
plain role text = record {
  role = value role;
  content = value (Json.str text);
  tool_calls = missing;
  tool_call_id = missing;
  name = missing;
  extra = Json.null;
}

abbrev calling : String → Message
calling call = record (plain "assistant" "") {
  tool_calls = value (record { id = some call; body = Json.null } ∷ []);
}

abbrev answering : String → Message
answering call = record (plain "tool" "done") { tool_call_id = value call }

-- A result whose call was cut off, and one whose call is there.
abbrev cut : List Message
cut = answering "a" ∷ plain "user" "hi" ∷ calling "b" ∷ answering "b" ∷ []

abbrev session : Session
session = record {
  key = b'c' ∷ b':' ∷ b'1' ∷ [];
  messages = plain "user" "old" ∷ cut;
  created_at = 10;
  updated_at = 20;
  metadata = Fields.end;
  last_consolidated = 1;
}

program : Unit {0}
unfolding find_legal_start legal_loop declare declare_all is_orphan member add_ids window from_user
    get_history entries entry safe_filename session_name is_legal
program = tt

start_of_cut : find_legal_start cut ≡ 1
unfolding program
start_of_cut = refl

history_of_session : get_history 10 session ≡ some (map shortened (drop 1 cut))
unfolding program
history_of_session = refl

get_history_legal_example :
    (is_legal [] (map shortened (drop 1 cut)) ≡ true)
    × (map shortened (drop 1 cut)
        ≡ map shortened (drop (find_legal_start (window 10 session)) (window 10 session)))
get_history_legal_example =
    get_history_legal 10 session (map shortened (drop 1 cut)) history_of_session

abbrev disk : Disk
disk = record { now = λ n. n + 100; move_ok = λ _. true; write_ok = λ n. ltb n 1 }

abbrev empty_manager : Manager
empty_manager = record {
  cache = λ _. none;
  files = λ _. none;
  legacy = λ _. none;
  reads = 0;
  writes = 0;
}

-- The keys "c:1" and "c_1" share the file "c_1.jsonl".
get_or_create-save_example :
    (get_or_create disk
      (b'c' ∷ b'_' ∷ b'1' ∷ [])
      (invalidate (b'c' ∷ b'_' ∷ b'1' ∷ []) (save disk session empty_manager).1)).0
    ≡ record session { key = b'c' ∷ b'_' ∷ b'1' ∷ []; updated_at = 100 }
unfolding program
get_or_create-save_example =
    get_or_create-save disk (b'c' ∷ b'_' ∷ b'1' ∷ []) session empty_manager refl refl

abbrev damaged : Manager
damaged = record empty_manager { files = λ _. some (corrupt ∷ lines_of session) }

damaged_readable : keep is_readable (corrupt ∷ lines_of session) ≡ lines_of session
unfolding lines_of
damaged_readable = refl

load-damaged_example : (load disk session.key damaged).0 ≡ some session
load-damaged_example =
    load-damaged disk session.key session (corrupt ∷ lines_of session) damaged refl refl
      damaged_readable refl

abbrev full : Manager
full = record empty_manager { writes = 1 }
