-- ===== src/Agent/Bounded.antt =====
-- What a run of `_run_agent_loop` of nanobot/agent/loop.py returns, adds and calls.
use mathlib.Core.Path.{subst}
use eeebot_self_evolving.Prelude.{
  ℕ, zero, suc, Bool, true, false, if◌then◌else◌, Option, String, List, [], ◌∷◌, ◌++◌, map, ◌≡◌,
  ◌≢◌, refl, sym, ap, ◌∙◌, arith, inl, inr, Option-cases, Bool-cases, str_eq,
}
use eeebot_self_evolving.Prelude.Json.{Fields}
use eeebot_self_evolving.Prelude.Effects.{
  Result, ok, raise, cancelled, Method, pure, ◌>>=◌, bind_ok,
}
use eeebot_self_evolving.Session.Message.{Message}
use eeebot_self_evolving.Session.History.{is_legal}
use eeebot_self_evolving.Tools.{Output, Runs, execute_tool}
use eeebot_self_evolving.Tools.Calls.{execute_tool-RanValid}
use eeebot_self_evolving.Providers.Retry.{ToolCallRequest, LlmResponse}
use eeebot_self_evolving.Providers.Attempts.{chat_with_retry-IsBounded}
use eeebot_self_evolving.Agent.{Agent, to_openai_tool_call, tool_result, strip_think}
use eeebot_self_evolving.Agent.Loop.{
  Run, message_fields, chat, report, execute_call, call_tools, call_message, call_round, finish,
  iterate, final_content, run_agent_loop,
}
use eeebot_self_evolving.Agent.Pairs.{is_paired}
use eeebot_self_evolving.Agent.Appended.{
  IsAppended, IsAppended-legal, unchanged, joined, with_message, message_first, result_first,
  map_ids, call_ids-build,
}

-- No call of the provider and no tool is cancelled.
pub record IsUncancelled (a : Agent) : Type 0 where
  pub chats : (n : ℕ) (ms : List Fields) → a.provider.chat n ms ≢ raise cancelled
  pub tools :
      (name : String) (args : Fields) (runs : Runs)
      → (execute_tool a.tools name args runs).0 ≢ raise cancelled

module _ (a : Agent) (uncancelled : IsUncancelled a) where
  abbrev Ends : {A : Type 0} → Method Run A → Run → (Run → Type 0) → Type 0
  Ends {A = A} m s P = (x : A) × (t : Run) × (m s ≡ (ok x, t)) × P t

  tool_returns :
      (name : String) (args : Fields) (runs : Runs)
      → (out : Output) × ((execute_tool a.tools name args runs).0 ≡ ok out)
  tool_returns name args runs = elim (execute_tool-RanValid a.tools name args runs).0 [
    | inl found ↦ found
    | inr e ↦ absurd (uncancelled.tools name args runs e)
  ]

  execute_call_ends :
      (tc : ToolCallRequest) (s : Run)
      → Ends (execute_call a tc) s (λ t. (t.messages ≡ s.messages) × (t.attempts ≡ s.attempts))
  unfolding execute_call
  execute_call_ends tc s =
      let (out, e) = tool_returns tc.name tc.arguments s.runs in
      (out, (execute_call a tc s).1, ap (λ r. (r, (execute_call a tc s).1)) e, (refl, refl))

  chat_ends : (s : Run) → Ends (chat a) s (λ t. IsAppended [] 1 s t)
  unfolding chat
  chat_ends s =
      let b =
        chat_with_retry-IsBounded a.provider (map message_fields s.messages) uncancelled.chats
          s.attempts in
      let t = (chat a s).1 in
      (
        b.response,
        t,
        ap (λ r. (r, t)) b.returned,
        unchanged s t 1 refl (omega (arith, b.calls_bound)),
      )

  call_tools_ends :
      (tcs : List ToolCallRequest) (s : Run)
      → Ends
          (call_tools a tcs)
          s
          (λ t. IsAppended (map (λ (tc : ToolCallRequest). tc.id) tcs) 0 s t)
  unfolding call_tools is_paired
  call_tools_ends [] s = (tt, s, refl, unchanged s s 0 refl (omega arith))
  call_tools_ends (tc ∷ tcs) s =
      let (out, t, e, kept) = execute_call_ends tc s in
      let t' = record t { messages = t.messages ++ tool_result tc.id tc.name out ∷ [] } in
      let (x, u, e', rest) = call_tools_ends tcs t' in
      (
        x,
        u,
        bind_ok (execute_call a tc) _ s e ∙ e',
        message_first (tool_result tc.id tc.name out) _ _ s t u kept (result_first tc out _) rest,
      )

  report_ends :
      (r : LlmResponse) (s : Run)
      → Ends (report r) s (λ t. (t.messages ≡ s.messages) × (t.attempts ≡ s.attempts))
  unfolding report
  report_ends r s = elim (Option-cases (strip_think r.content)) [
    | inl e ↦ rw e (tt, _, refl, (refl, refl))
    | inr (thought, e) ↦ rw e (tt, _, refl, (refl, refl))
  ]

  maybe_report_ends :
      (reports : Bool) (r : LlmResponse) (s : Run)
      → Ends
          (if reports then report r else pure tt)
          s
          (λ t. (t.messages ≡ s.messages) × (t.attempts ≡ s.attempts))
  maybe_report_ends true r s = report_ends r s
  maybe_report_ends false r s = (tt, s, refl, (refl, refl))

  call_first :
      (r : LlmResponse) (ms : List Message)
      → is_paired (map (λ (tc : ToolCallRequest). tc.id) r.tool_calls) ms ≡ true
      → is_paired [] (call_message a r ∷ ms) ≡ true
  unfolding is_paired
  call_first r ms h =
      let ids =
        call_ids-build r.content (map (to_openai_tool_call a.dumps) r.tool_calls)
          r.reasoning_content r.thinking_blocks in
      rw (ids, map_ids a r.tool_calls) h

  call_round_ends :
      (reports : Bool) (r : LlmResponse) (s : Run)
      → Ends (call_round a reports r) s (λ t. IsAppended [] 0 s t)
  unfolding call_round
  call_round_ends reports r s =
      let (x, t, e, kept) = maybe_report_ends reports r s in
      let (y, u, e', rest) = call_tools_ends r.tool_calls (with_message (call_message a r) t) in
      (
        y,
        u,
        bind_ok (if reports then report r else pure tt) _ s e ∙ e',
        message_first (call_message a r) _ _ s t u kept (call_first r) rest,
      )

  finish_ends : (r : LlmResponse) (s : Run) → Ends (finish r) s (λ t. IsAppended [] 0 s t)
  unfolding finish is_paired
  finish_ends r s = elim (Bool-cases (str_eq r.finish_reason "error")) [
    | inl e ↦ rw e (_, s, refl, unchanged s s 0 refl (omega arith))
    | inr e ↦ rw e (
      strip_think r.content,
      _,
      refl,
      record { added = _ ∷ []; messages = refl; paired = refl; calls = omega arith },
    )
  ]

  choose_ends :
      {A : Type 0} (calls : List ToolCallRequest) (f g : Method Run A) (s : Run) (P : Run → Type 0)
      → Ends f s P
      → Ends g s P
      → Ends (elim calls [ [] ↦ f | _ ↦ g ]) s P
  choose_ends [] f g s P h k = h
  choose_ends (c ∷ cs) f g s P h k = k

  more_rounds : (n : ℕ) (s t : Run) → IsAppended [] 0 s t → IsAppended [] n s t
  more_rounds n s t h = joined [] 0 n n s t t (omega arith) h (unchanged t t n refl (omega arith))

  iterate_ends :
      (n : ℕ) (reports : Bool) (s : Run) → Ends (iterate n a reports) s (λ t. IsAppended [] n s t)
  unfolding iterate
  iterate_ends zero reports s = (_, s, refl, unchanged s s 0 refl (omega arith))
  iterate_ends (suc n) reports s =
      let (r, t, e, asked) = chat_ends s in
      let (content, u, e', finished) = finish_ends r t in
      let (y, v, e'', called) = call_round_ends reports r t in
      let (z, w, e''', rest) = iterate_ends n reports v in
      let (last, end, done, grown) =
        choose_ends r.tool_calls (finish r >>= λ c. pure (c, n))
          (call_round a reports r >>= λ _. iterate n a reports) t (λ w. IsAppended [] n t w)
          ((content, n), u, bind_ok (finish r) _ t e', more_rounds n t u finished)
          (
            z,
            w,
            bind_ok (call_round a reports r) _ t e'' ∙ e''',
            joined [] 0 n n t v w (omega arith) called rest,
          ) in
      (
        last,
        end,
        bind_ok (chat a) _ s e ∙ done,
        joined [] 1 n (suc n) s t end (omega arith) asked grown,
      )

-- What a run returns and adds: no exception, every call has its result right behind it, legal
-- messages stay legal, and the provider is called at most four times in each iteration.
pub record IsRun (a : Agent) (s : Run) (q : Result (Option (List ℕ)) × Run) : Type 0 where
  pub content : Option (List ℕ)
  pub returned : q.0 ≡ ok content
  pub grown : IsAppended [] a.max_iterations s q.1
  pub legal : is_legal [] s.messages ≡ true → is_legal [] q.1.messages ≡ true

pub run_agent_loop-IsRun :
    (a : Agent) (reports : Bool) (s : Run)
    → IsUncancelled a
    → IsRun a s (run_agent_loop a reports s)
unfolding run_agent_loop
run_agent_loop-IsRun a reports s uncancelled =
    let (last, t, e, grown) = iterate_ends a uncancelled a.max_iterations reports s in
    let run : run_agent_loop a reports s ≡ (ok (final_content a last), t) =
      bind_ok (iterate a.max_iterations a reports) _ s e in
    subst (IsRun a s) (sym run) (record {
      content = final_content a last;
      returned = refl;
      grown = grown;
      legal = λ h. IsAppended-legal a.max_iterations s t grown h;
    })
