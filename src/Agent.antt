-- ===== src/Agent.antt =====
-- The messages that the agent's loop writes and its texts (nanobot/agent/loop.py and context.py,
-- and `build_assistant_message` of nanobot/utils/helpers.py).
pub mod Loop
pub mod Pairs
pub mod Appended
pub mod Bounded
pub mod Turn
pub mod Process
mod Tests
use eeebot_self_evolving.Prelude.{
  ℕ, zero, suc, Bool, true, false, ◌||◌, Option, none, some, String, List, [], ◌∷◌, ◌++◌, map, ltb,
  if◌then◌else◌, or_else, take, length, codes, text_of, strip,
}
use eeebot_self_evolving.Prelude.Json.{Json, Items, Fields, missing, none_value, value}
use eeebot_self_evolving.Memory.Store.{is_prefix}
use eeebot_self_evolving.Session.Message.{ToolCall, Message}
use eeebot_self_evolving.Tools.{Output, text, value as other, Registry, Runs, join}
use eeebot_self_evolving.Providers.Retry.{ToolCallRequest, LlmResponse, Provider, Attempts}
use eeebot_self_evolving.Runtime.Dict.{dict, assign}

-- `dumps` is `json.dumps`, and `decimal` prints a number.
pub record Agent : Type 0 where
  pub provider : Provider
  pub tools : Registry
  pub max_iterations : ℕ
  pub dumps : Json → String
  pub decimal : ℕ → List ℕ

abbrev pub option_json : Option (List ℕ) → Json
option_json none = Json.null
option_json (some t) = Json.str (text_of t)

abbrev pub with_fields : String → Fields → Fields → Fields
with_fields k Fields.end d = d
with_fields k v d = assign k (Json.obj v) d

-- `to_openai_tool_call`
abbrev pub to_openai_tool_call : (Json → String) → ToolCallRequest → ToolCall
to_openai_tool_call dumps tc = record {
  id = some tc.id;
  body = Json.obj (
      with_fields "provider_specific_fields" tc.provider_specific_fields (
        dict (
          ("id", Json.str tc.id)
          ∷ ("type", Json.str "function")
          ∷ (
            "function",
            Json.obj (
                with_fields "provider_specific_fields" tc.function_provider_specific_fields (
                  dict (
                    ("name", Json.str tc.name)
                    ∷ ("arguments", Json.str (dumps (Json.obj tc.arguments)))
                    ∷ []))),
          )
          ∷ [])));
}

abbrev pub reasoning_fields : Option (List ℕ) → Items → Fields
reasoning_fields none Items.nil = Fields.end
reasoning_fields none blocks = dict (("thinking_blocks", Json.arr blocks) ∷ [])
reasoning_fields (some t) Items.nil = dict (("reasoning_content", Json.str (text_of t)) ∷ [])
reasoning_fields (some t) blocks =
    dict (("reasoning_content", Json.str (text_of t)) ∷ ("thinking_blocks", Json.arr blocks) ∷ [])

abbrev pub build_assistant_message :
    Option (List ℕ) → List ToolCall → Option (List ℕ) → Items → Message
build_assistant_message content tool_calls reasoning_content thinking_blocks = record {
  role = value "assistant";
  content = value (option_json content);
  tool_calls = elim tool_calls [ [] ↦ missing | c ∷ cs ↦ value (c ∷ cs) ];
  tool_call_id = missing;
  name = missing;
  extra = Json.obj (reasoning_fields reasoning_content thinking_blocks);
}

abbrev pub output_json : Output → Json
output_json (text t) = Json.str (text_of t)
output_json (other v) = v

-- The message of `add_tool_result`.
abbrev pub tool_result : String → String → Output → Message
tool_result tool_call_id tool_name result = record {
  role = value "tool";
  content = value (output_json result);
  tool_calls = missing;
  tool_call_id = value tool_call_id;
  name = value tool_name;
  extra = Json.null;
}

-- How far behind the start of `text` the first `</think>` ends.
unfoldable pub close_think : List ℕ → Option ℕ
unfolding is_prefix
close_think [] = none
close_think (c ∷ cs) =
    if is_prefix (codes "</think>") (c ∷ cs)
    then some 8
    else elim (close_think cs) [ none ↦ none | some n ↦ some (suc n) ]

-- `re.sub(r"<think>[\s\S]*?</think>", "", text)`, of which `skip` characters are still to be passed over.
unfoldable pub sub_think : ℕ → List ℕ → List ℕ
unfolding close_think is_prefix
sub_think skip [] = []
sub_think (suc skip) (c ∷ cs) = sub_think skip cs
sub_think zero (c ∷ cs) = elim (is_prefix (codes "<think>") (c ∷ cs)) [
  | false ↦ c ∷ sub_think 0 cs
  | true ↦ elim (close_think cs) [ none ↦ c ∷ sub_think 0 cs | some n ↦ sub_think n cs ]
]

abbrev pub none_if_empty : List ℕ → Option (List ℕ)
none_if_empty [] = none
none_if_empty (c ∷ cs) = some (c ∷ cs)

-- `_strip_think`
unfoldable pub strip_think : Option (List ℕ) → Option (List ℕ)
unfolding sub_think
strip_think content = none_if_empty (strip (sub_think 0 (or_else content [])))

abbrev pub hint_text : String → List ℕ → List ℕ
hint_text name val =
    codes name
    ++ codes "(\""
    ++ (if ltb 40 (length val) then take 40 val ++ codes "…\")" else val ++ codes "\")")

-- The hint of one call: its name and its first argument, if that is a text.
abbrev pub format_call : ToolCallRequest → List ℕ
format_call tc = elim tc.arguments [
  | Fields.end ↦ codes tc.name
  | Fields.field k v rest ↦ elim v [
    | Json.str val ↦ hint_text tc.name (codes val)
    | _ ↦ codes tc.name
  ]
]

-- `_tool_hint`
unfoldable pub tool_hint : List ToolCallRequest → List ℕ
tool_hint tool_calls = join (codes ", ") (map format_call tool_calls)
