-- ===== src/Providers/Attempts.antt =====
-- How often `chat_with_retry` of nanobot/providers/base.py calls, and what it returns.
use mathlib.Core.Path.{subst}
use eeebot_self_evolving.Prelude.{
  ℕ, zero, suc, true, false, List, [], ◌∷◌, ◌++◌, ◌≡◌, ◌≢◌, ◌≤◌, ◌<◌, ◌+◌, refl, sym, ◌∙◌, inl, inr,
  arith, Bool-cases, Option-cases, take, length,
}
use eeebot_self_evolving.Prelude.Json.{Fields}
use eeebot_self_evolving.Prelude.Effects.{Result, ok, raise, exception, cancelled}
use eeebot_self_evolving.Providers.Sanitize.{strip_image_content}
use eeebot_self_evolving.Providers.Retry.{
  LlmResponse, Provider, Attempts, chat_retry_delays, is_transient_error, is_error, safe_response,
  safe_chat, without_images, retry_loop, chat_with_retry,
}

append_nil : (xs : List ℕ) → xs ++ [] ≡ xs
append_nil [] = refl
append_nil (x ∷ xs) = rw (append_nil xs)

append_one : (xs : List ℕ) (y : ℕ) (ys : List ℕ) → (xs ++ y ∷ []) ++ ys ≡ xs ++ y ∷ ys
append_one [] y ys = refl
append_one (x ∷ xs) y ys = rw (append_one xs y ys)

module _ (p : Provider) (messages : List Fields) where
  -- The n-th call answers with `r`, an exception being an error response.
  abbrev pub Answers : ℕ → LlmResponse → Type 0
  Answers n r = safe_response p (p.chat n messages) ≡ ok r

  -- The n-th call fails in a way that is worth another call.
  abbrev pub FailsTransiently : ℕ → Type 0
  FailsTransiently n =
      (r : LlmResponse) × Answers n r
      × (is_error p r ≡ true)
      × (is_transient_error p r.content ≡ true)

  abbrev after : ℕ → List ℕ → Attempts → Attempts
  after k delays s = record { calls = s.calls + suc k; slept = s.slept ++ take k delays }

  answered_now :
      (delays : List ℕ) (s : Attempts) (r : LlmResponse)
      → Answers s.calls r
      → is_error p r ≡ false
      → retry_loop p delays messages s ≡ (ok r, record { calls = suc s.calls; slept = s.slept })
  unfolding retry_loop safe_chat
  answered_now [] s r a good = rw a refl
  answered_now (delay ∷ delays) s r a good = rw (a, good) refl

  again_later :
      (delay : ℕ) (delays : List ℕ) (s : Attempts)
      → FailsTransiently s.calls
      → retry_loop p (delay ∷ delays) messages s
        ≡ retry_loop p delays messages
            (record { calls = suc s.calls; slept = s.slept ++ delay ∷ [] })
  unfolding retry_loop safe_chat
  again_later delay delays s (r, a, bad, transient) = rw (a, bad, transient) refl

  same_attempts :
      (r : LlmResponse) {c c' : ℕ} {l l' : List ℕ}
      → c ≡ c'
      → l ≡ l'
      → ◌≡◌ {A = Result LlmResponse × Attempts}
          (ok r, record { calls = c; slept = l })
          (ok r, record { calls = c'; slept = l' })
  same_attempts r e f = rw (e, f) refl

  abbrev once : ℕ → Attempts → Attempts
  once delay s = record { calls = suc s.calls; slept = s.slept ++ delay ∷ [] }

  retry_loop-recovers :
      (k : ℕ) (delays : List ℕ) (s : Attempts) (r : LlmResponse)
      → k ≤ length delays
      → ((i : ℕ) → i < k → FailsTransiently (s.calls + i))
      → Answers (s.calls + k) r
      → is_error p r ≡ false
      → retry_loop p delays messages s ≡ (ok r, after k delays s)
  retry_loop-recovers zero delays s r h fails a good =
      answered_now delays s r (subst (λ n. Answers n r) (omega arith) a) good
      ∙ same_attempts r (omega arith) (sym (append_nil s.slept))
  retry_loop-recovers (suc k) [] s r h fails a good = absurd (omega (arith, h))
  retry_loop-recovers (suc k) (delay ∷ delays) s r h fails a good =
      again_later delay delays s (subst FailsTransiently (omega arith) (fails 0 (omega arith)))
      ∙ retry_loop-recovers k delays (once delay s) r (omega (arith, h))
          (λ i l. subst FailsTransiently (omega arith) (fails (suc i) (omega (arith, l))))
          (subst (λ n. Answers n r) (omega arith) a) good
      ∙ same_attempts r (omega arith) (append_one s.slept delay (take k delays))

  -- The loop answers, unless a call is cancelled, with a bounded number of calls and of delays.
  pub record IsBounded (delays : List ℕ) (s : Attempts) (q : Result LlmResponse × Attempts)
      : Type 0 where
    pub response : LlmResponse
    pub returned : q.0 ≡ ok response
    pub calls_more : s.calls < q.1.calls
    pub calls_bound : q.1.calls ≤ s.calls + suc (length delays)

  module _ (uncancelled : (n : ℕ) (ms : List Fields) → p.chat n ms ≢ raise cancelled) where
    safe_response-ok :
        (a : Result LlmResponse)
        → a ≢ raise cancelled
        → (r : LlmResponse) × (safe_response p a ≡ ok r)
    unfolding safe_response
    safe_response-ok (ok r) h = (r, refl)
    safe_response-ok (raise (exception t)) h = (_, refl)
    safe_response-ok (raise cancelled) h = absurd (h refl)

    answers :
        (n : ℕ) (ms : List Fields) → (r : LlmResponse) × (safe_response p (p.chat n ms) ≡ ok r)
    answers n ms = safe_response-ok (p.chat n ms) (uncancelled n ms)

    without_images-IsBounded :
        (delays : List ℕ) (delay : ℕ) (r : LlmResponse) (s : Attempts)
        → IsBounded
            (delay ∷ delays)
            s
            (without_images p messages r (record s { calls = suc s.calls }))
    unfolding without_images safe_chat
    without_images-IsBounded delays delay r s =
        elim (Option-cases (strip_image_content p.show messages)) [
          | inl e ↦
              rw (e, without_images)
                (record {
                  response = r;
                  returned = refl;
                  calls_more = omega arith;
                  calls_bound = omega arith;
                })
          | inr (stripped, e) ↦
              let (r', a) = answers (suc s.calls) stripped in
              rw (e, without_images)
                (record {
                  response = r';
                  returned = a;
                  calls_more = omega arith;
                  calls_bound = omega arith;
                })
        ]

    retry_loop-IsBounded :
        (delays : List ℕ) (s : Attempts) → IsBounded delays s (retry_loop p delays messages s)
    unfolding retry_loop safe_chat
    retry_loop-IsBounded [] s =
        let (r, a) = answers s.calls messages in
        record { response = r; returned = a; calls_more = omega arith; calls_bound = omega arith }
    retry_loop-IsBounded (delay ∷ delays) s =
        let (r, a) = answers s.calls messages in
        elim (Bool-cases (is_error p r)) [
          | inr e ↦
              rw (a, e)
                (record {
                  response = r;
                  returned = refl;
                  calls_more = omega arith;
                  calls_bound = omega arith;
                })
          | inl e ↦ elim (Bool-cases (is_transient_error p r.content)) [
            | inr f ↦ rw (a, e, f) (without_images-IsBounded delays delay r s)
            | inl f ↦
                let ih = retry_loop-IsBounded delays (once delay s) in
                rw (a, e, f)
                  (record {
                    response = ih.response;
                    returned = ih.returned;
                    calls_more = omega (arith, ih.calls_more);
                    calls_bound = omega (arith, ih.calls_bound);
                  })
          ]
        ]

-- When the first k calls, at most three, fail transiently and the next one answers without an
-- error, `chat_with_retry` returns that answer after k + 1 calls and the first k of its delays.
pub chat_with_retry_recovers :
    (p : Provider) (messages : List Fields) (k : ℕ) (s : Attempts) (r : LlmResponse)
    → k ≤ 3
    → ((i : ℕ) → i < k → FailsTransiently p messages (s.calls + i))
    → Answers p messages (s.calls + k) r
    → is_error p r ≡ false
    → chat_with_retry p messages s
      ≡ (ok r, record { calls = s.calls + suc k; slept = s.slept ++ take k chat_retry_delays })
unfolding chat_with_retry
chat_with_retry_recovers p messages k s r h fails a good =
    retry_loop-recovers p messages k chat_retry_delays s r h fails a good

pub chat_with_retry-IsBounded :
    (p : Provider) (messages : List Fields)
    → ((n : ℕ) (ms : List Fields) → p.chat n ms ≢ raise cancelled)
    → (s : Attempts) → IsBounded p messages chat_retry_delays s (chat_with_retry p messages s)
unfolding chat_with_retry
chat_with_retry-IsBounded p messages uncancelled s =
    retry_loop-IsBounded p messages uncancelled chat_retry_delays s
