-- ===== src/Agent/Appended.antt =====
-- How the messages of a run grow: by results that belong to calls.
use mathlib.Core.List.{append_assoc, append-nil}
use eeebot_self_evolving.Prelude.{
  ℕ, true, eq_iff, Option, String, List, [], ◌∷◌, ◌++◌, map, ◌≡◌, ◌≤◌, ◌+◌, ◌*◌, refl, sym, ap, ◌∙◌,
  arith,
}
use eeebot_self_evolving.Prelude.Json.{Items}
use eeebot_self_evolving.Session.Message.{ToolCall, Message, declare_all}
use eeebot_self_evolving.Session.History.{is_legal, is_legal-append}
use eeebot_self_evolving.Tools.{Output}
use eeebot_self_evolving.Providers.Retry.{ToolCallRequest, Attempts}
use eeebot_self_evolving.Agent.{Agent, to_openai_tool_call, build_assistant_message, tool_result}
use eeebot_self_evolving.Agent.Loop.{Run}
use eeebot_self_evolving.Agent.Pairs.{
  id_of, call_ids, is_paired, is_paired-append, is_paired-is_legal,
}

-- From `s` to `t` the messages grow by `added`, which begins with the results of `expected` and
-- has the result of every call, and there are at most `4 * rounds` calls of the provider.
pub record IsAppended (expected : List String) (rounds : ℕ) (s t : Run) : Type 0 where
  pub added : List Message
  pub messages : t.messages ≡ s.messages ++ added
  pub paired : is_paired expected added ≡ true
  pub calls : t.attempts.calls ≤ s.attempts.calls + 4 * rounds

pub IsAppended-legal :
    (n : ℕ) (s t : Run)
    → IsAppended [] n s t
    → is_legal [] s.messages ≡ true
    → is_legal [] t.messages ≡ true
IsAppended-legal n s t g h =
    let d = declare_all [] s.messages in
    let rest = is_paired-is_legal [] d g.added tt g.paired in
    rw (g.messages, is_legal-append [] s.messages g.added, h, rest) refl

pub unchanged :
    (s t : Run) (n : ℕ)
    → t.messages ≡ s.messages
    → t.attempts.calls ≤ s.attempts.calls + 4 * n
    → IsAppended [] n s t
unfolding is_paired
unchanged s t n e c = record {
  added = [];
  messages = e ∙ sym (append-nil s.messages);
  paired = refl;
  calls = c;
}

pub joined :
    (expected : List String) (m n k : ℕ) (s t u : Run)
    → m + n ≤ k
    → IsAppended expected m s t
    → IsAppended [] n t u
    → IsAppended expected k s u
joined expected m n k s t u le h later = record {
  added = h.added ++ later.added;
  messages =
      later.messages
      ∙ ap (λ ms. ms ++ later.added) h.messages
      ∙ append_assoc s.messages h.added later.added;
  paired = is_paired-append expected h.added later.added h.paired ∙ later.paired;
  calls = omega (arith, le, h.calls, later.calls);
}

abbrev pub with_message : Message → Run → Run
with_message m s = record s { messages = s.messages ++ m ∷ [] }

-- One message, and then what is appended behind it.
pub message_first :
    (m : Message) (expected later : List String) (s t u : Run)
    → (t.messages ≡ s.messages) × (t.attempts ≡ s.attempts)
    → ((ms : List Message) → is_paired later ms ≡ true → is_paired expected (m ∷ ms) ≡ true)
    → IsAppended later 0 (with_message m t) u
    → IsAppended expected 0 s u
message_first m expected later s t u kept step h = record {
  added = m ∷ h.added;
  messages =
      h.messages
      ∙ ap (λ ms. (ms ++ m ∷ []) ++ h.added) kept.0
      ∙ append_assoc s.messages (m ∷ []) h.added;
  paired = step h.added h.paired;
  calls = rw (ap (λ (n : Attempts). n.calls) kept.1) at h.calls;
}

pub result_first :
    (tc : ToolCallRequest) (out : Output) (ids : List String) (ms : List Message)
    → is_paired ids ms ≡ true
    → is_paired (tc.id ∷ ids) (tool_result tc.id tc.name out ∷ ms) ≡ true
unfolding is_paired
result_first tc out ids ms h = let same = (eq_iff tc.id tc.id).1 refl in rw (same, h) refl

pub map_ids :
    (f : Agent) (tcs : List ToolCallRequest)
    → map id_of (map (to_openai_tool_call f.dumps) tcs) ≡ map (λ (tc : ToolCallRequest). tc.id) tcs
map_ids f [] = refl
map_ids f (tc ∷ tcs) = ap (λ ids. tc.id ∷ ids) (map_ids f tcs)

pub call_ids-build :
    (content : Option (List ℕ)) (calls : List ToolCall) (reasoning : Option (List ℕ))
    (blocks : Items)
    → call_ids (build_assistant_message content calls reasoning blocks) ≡ map id_of calls
call_ids-build content [] reasoning blocks = refl
call_ids-build content (c ∷ cs) reasoning blocks = refl
