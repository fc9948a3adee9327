-- ===== src/Agent/Loop.antt =====
-- `_run_agent_loop` of nanobot/agent/loop.py, over `chat_with_retry` and the tool registry.
use eeebot_self_evolving.Prelude.{
  ℕ, zero, suc, Bool, Option, none, some, String, List, [], ◌∷◌, ◌++◌, map, str_eq, or_else,
  if◌then◌else◌, codes,
}
use eeebot_self_evolving.Prelude.Json.{Json, Items, Fields, Key, missing, none_value, value}
use eeebot_self_evolving.Prelude.Effects.{ok, Method, pure, ◌>>=◌}
use eeebot_self_evolving.Runtime.Dict.{as_dict}
use eeebot_self_evolving.Session.Message.{ToolCall, Message}
use eeebot_self_evolving.Tools.{Output, Runs, execute_tool}
use eeebot_self_evolving.Providers.Retry.{ToolCallRequest, LlmResponse, Attempts, chat_with_retry}
use eeebot_self_evolving.Agent.{
  Agent, to_openai_tool_call, build_assistant_message, tool_result, strip_think, tool_hint,
}

-- The variables of the loop, what the provider and the registry have done, and what `on_progress`
-- was called with: the text, and whether it is a hint.
pub record Run : Type 0 where
  pub messages : List Message
  pub tools_used : List String
  pub attempts : Attempts
  pub runs : Runs
  pub progress : List (Option (List ℕ) × Bool)

abbrev pub json_key : {A : Type 0} → String → (A → Json) → Key A → Fields → Fields
json_key k encode missing rest = rest
json_key k encode none_value rest = Fields.field k Json.null rest
json_key k encode (value a) rest = Fields.field k (encode a) rest

abbrev pub call_items : List ToolCall → Items
call_items [] = Items.nil
call_items (c ∷ cs) = Items.cons c.body (call_items cs)

-- The dict of a message.
abbrev pub message_fields : Message → Fields
message_fields m = json_key "role" Json.str m.role (
    json_key "content" (λ v. v) m.content
      (json_key "tool_calls" (λ calls. Json.arr (call_items calls)) m.tool_calls
        (json_key "tool_call_id" Json.str m.tool_call_id
          (json_key "name" Json.str m.name (as_dict m.extra)))))

unfoldable pub chat : Agent → Method Run LlmResponse
chat a s =
    let answer = chat_with_retry a.provider (map message_fields s.messages) s.attempts in
    (answer.0, record s { attempts = answer.1 })

abbrev pub add_message : Message → Method Run Unit
add_message m s = (ok tt, record s { messages = s.messages ++ m ∷ [] })

abbrev pub on_progress : Option (List ℕ) → Bool → Method Run Unit
on_progress content is_hint s =
    (ok tt, record s { progress = s.progress ++ (content, is_hint) ∷ [] })

-- The thought, if there is one, and the hint.
unfoldable pub report : LlmResponse → Method Run Unit
unfolding strip_think tool_hint
report r =
    (elim (strip_think r.content) [
      | none ↦ pure tt
      | some thought ↦ on_progress (some thought) Bool.false
    ])
    >>= λ _. on_progress (strip_think (some (tool_hint r.tool_calls))) Bool.true

-- The execution of a call, whose name is noted before.
unfoldable pub execute_call : Agent → ToolCallRequest → Method Run Output
execute_call a tc s =
    let answer = execute_tool a.tools tc.name tc.arguments s.runs in
    (answer.0, record s { tools_used = s.tools_used ++ tc.name ∷ []; runs = answer.1 })

-- The loop over the calls of a response.
unfoldable pub call_tools : Agent → List ToolCallRequest → Method Run Unit
unfolding execute_call
call_tools a [] = pure tt
call_tools a (tc ∷ rest) = execute_call a tc >>= λ result.
    add_message (tool_result tc.id tc.name result) >>= λ _. call_tools a rest

abbrev pub call_message : Agent → LlmResponse → Message
call_message a r =
    build_assistant_message r.content (map (to_openai_tool_call a.dumps) r.tool_calls)
      r.reasoning_content r.thinking_blocks

-- A response with calls; the loop goes on.
unfoldable pub call_round : Agent → Bool → LlmResponse → Method Run Unit
unfolding report call_tools
call_round a reports r = (if reports then report r else pure tt) >>= λ _.
    add_message (call_message a r) >>= λ _. call_tools a r.tool_calls

abbrev pub error_text : List ℕ
error_text = codes "Sorry, I encountered an error calling the AI model."

-- A response without calls: its final content. An error is not added to the messages.
unfoldable pub finish : LlmResponse → Method Run (Option (List ℕ))
unfolding strip_think
finish r =
    let clean = strip_think r.content in
    if str_eq r.finish_reason "error"
    then pure (some (or_else clean error_text))
    else (add_message (build_assistant_message clean [] r.reasoning_content r.thinking_blocks)
        >>= λ _. pure clean)

-- The loop with the iterations that are left: the final content, and how many are left after it.
unfoldable pub iterate : ℕ → Agent → Bool → Method Run (Option (List ℕ) × ℕ)
unfolding chat call_round finish
iterate zero a reports = pure (none, 0)
iterate (suc left) a reports = chat a >>= λ r. elim r.tool_calls [
  | [] ↦ finish r >>= λ content. pure (content, left)
  | _ ↦ call_round a reports r >>= λ _. iterate left a reports
]

abbrev pub limit_text : Agent → List ℕ
limit_text a =
    codes "I reached the maximum number of tool call iterations ("
    ++ a.decimal a.max_iterations
    ++ codes ") without completing the task. You can try breaking the task into smaller steps."

abbrev pub final_content : Agent → Option (List ℕ) × ℕ → Option (List ℕ)
final_content a (none, zero) = some (limit_text a)
final_content a (content, left) = content

-- `_run_agent_loop`, where `reports` says that `on_progress` is given.
unfoldable pub run_agent_loop : Agent → Bool → Method Run (Option (List ℕ))
unfolding iterate
run_agent_loop a reports =
    iterate a.max_iterations a reports >>= λ last. pure (final_content a last)
