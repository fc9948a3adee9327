-- ===== src/Session/Message.antt =====
-- The messages of a session, and `Session` with `add_message`, `_find_legal_start`,
-- `get_history` and `clear`.
use eeebot_self_evolving.Prelude.{
  ℕ, suc, ◌-◌, Bool, false, ◌&&◌, ◌||◌, not, Option, none, some, String, List, [], ◌∷◌, ◌++◌,
  str_eq, if◌then◌else◌, or_else, truthy, take, drop, last_items,
}
use eeebot_self_evolving.Prelude.Json.{Json, Fields, Key, missing, get}

-- `id` is the id of a call that is a dict with one; `body` is the call as it stands.
pub record ToolCall : Type 0 where
  pub id : Option String
  pub body : Json

-- The keys that the code reads; `extra` is the rest of the message.
pub record Message : Type 0 where
  pub role : Key String
  pub content : Key Json
  pub tool_calls : Key (List ToolCall)
  pub tool_call_id : Key String
  pub name : Key String
  pub extra : Json

pub record Session : Type 0 where
  pub key : List ℕ
  pub messages : List Message
  pub created_at : ℕ
  pub updated_at : ℕ
  pub metadata : Fields
  pub last_consolidated : ℕ

-- The timestamp of the message and the update are two readings of the clock: the message comes
-- with the first, and `now` is the second.
unfoldable pub add_message : Message → ℕ → Session → Session
add_message msg now s = record s { messages = s.messages ++ msg ∷ []; updated_at = now }

unfoldable pub clear : ℕ → Session → Session
clear now s = record s { messages = []; last_consolidated = 0; updated_at = now }

abbrev pub has_role : String → Message → Bool
has_role r m = elim (get m.role) [ none ↦ false | some q ↦ str_eq q r ]

unfoldable pub member : String → List String → Bool
member x [] = false
member x (y ∷ ys) = str_eq y x || member x ys

-- `declared.add(str(tc["id"]))` for the calls with a truthy id; the newest stands first.
unfoldable pub add_ids : List ToolCall → List String → List String
add_ids [] declared = declared
add_ids (c ∷ cs) declared =
    add_ids cs (if truthy c.id then or_else c.id "" ∷ declared else declared)

-- The calls that an assistant's message declares.
unfoldable pub declare : List String → Message → List String
unfolding add_ids
declare declared m =
    if has_role "assistant" m then add_ids (or_else (get m.tool_calls) []) declared else declared

unfoldable pub declare_all : List String → List Message → List String
unfolding declare
declare_all declared [] = declared
declare_all declared (m ∷ ms) = declare_all (declare declared m) ms

-- A tool result whose id is truthy and was not declared.
unfoldable pub is_orphan : List String → Message → Bool
unfolding member
is_orphan declared m =
    has_role "tool" m
    && (truthy (get m.tool_call_id) && not (member (or_else (get m.tool_call_id) "") declared))

-- The loop over `enumerate(messages)`: `rest` stands at the index `i`. At an orphan the ids are
-- collected anew from `messages[start:i + 1]`.
unfoldable pub legal_loop : List Message → List Message → ℕ → List String → ℕ → ℕ
unfolding declare_all is_orphan
legal_loop all [] i declared start = start
legal_loop all (m ∷ rest) i declared start =
    let orphan = is_orphan declared m in
    legal_loop all rest (suc i)
      (if orphan
        then declare_all [] (take (suc i - suc i) (drop (suc i) all))
        else declare declared m)
      (if orphan then suc i else start)

unfoldable pub find_legal_start : List Message → ℕ
unfolding legal_loop
find_legal_start messages = legal_loop messages messages 0 [] 0

-- `sliced[i:]` from the first user message, if there is one.
unfoldable pub from_user : List Message → Option (List Message)
from_user [] = none
from_user (m ∷ ms) = let rest = from_user ms in if has_role "user" m then some (m ∷ ms) else rest

-- `message.get("content", "")`
abbrev content_of : Message → Key Json
content_of m = elim m.content [ missing ↦ Key.value (Json.str "") | k ↦ k ]

abbrev pub shortened : Message → Message
shortened m = record m { content = content_of m; extra = Json.null }

-- The message as `get_history` returns it; `none` is the `KeyError` of a missing role.
unfoldable pub entry : Message → Option Message
entry m = elim m.role [ missing ↦ none | _ ↦ some (shortened m) ]

unfoldable pub entries : List Message → Option (List Message)
unfolding entry
entries [] = some []
entries (m ∷ ms) = elim (entry m) [
  | none ↦ none
  | some e ↦ elim (entries ms) [ none ↦ none | some es ↦ some (e ∷ es) ]
]

-- `self.messages[self.last_consolidated:][-max_messages:]`, from its first user message.
unfoldable pub window : ℕ → Session → List Message
unfolding from_user
window max_messages s =
    let sliced = last_items max_messages (drop s.last_consolidated s.messages) in
    or_else (from_user sliced) sliced

unfoldable pub get_history : ℕ → Session → Option (List Message)
unfolding window find_legal_start entries
get_history max_messages s =
    let sliced = window max_messages s in entries (drop (find_legal_start sliced) sliced)
