-- ===== src/Providers/Tests.antt =====
-- Small runs of the retry, and the theorems at them.
use eeebot_self_evolving.Prelude.{
  ℕ, zero, suc, none, List, [], ◌∷◌, ◌++◌, ◌≡◌, ◌<◌, ◌+◌, refl, arith, take,
}
use eeebot_self_evolving.Prelude.Json.{Json, Items, Fields}
use eeebot_self_evolving.Prelude.Effects.{ok, raise, exception}
use eeebot_self_evolving.Memory.Store.{is_inside, is_prefix}
use eeebot_self_evolving.Runtime.Dict.{dict}
use eeebot_self_evolving.Providers.Retry.{
  LlmResponse, plain_response, Provider, Attempts, chat_retry_delays, is_transient_error,
  any_inside, safe_response, chat_with_retry,
}
use eeebot_self_evolving.Providers.Attempts.{Answers, FailsTransiently, chat_with_retry_recovers}

abbrev good : LlmResponse
good = plain_response none "stop"

-- The first two calls raise, and the others answer.
abbrev provider : Provider
provider = record {
  chat = λ n _. elim n [
    | zero ↦ raise (exception "timeout")
    | suc zero ↦ raise (exception "error 503")
    | _ ↦ ok good
  ];
  lower = λ t. t;
  show = λ _. "";
}

abbrev fresh : Attempts
fresh = record { calls = 0; slept = [] }

first_two : (i : ℕ) → i < 2 → FailsTransiently provider [] (0 + i)
unfolding safe_response is_transient_error any_inside is_inside is_prefix
first_two zero h = (_, refl, refl, refl)
first_two (suc zero) h = (_, refl, refl, refl)
first_two (suc (suc i)) h = absurd (omega (arith, h))

third : Answers provider [] (0 + 2) good
unfolding safe_response
third = refl

chat_with_retry_recovers_example :
    chat_with_retry provider [] fresh
    ≡ (ok good, record { calls = 0 + 3; slept = [] ++ take 2 chat_retry_delays })
chat_with_retry_recovers_example =
    chat_with_retry_recovers provider [] 2 fresh good (omega arith) first_two third refl

abbrev empty_block : Json
empty_block = Json.obj (dict (("type", Json.str "text") ∷ ("text", Json.str "") ∷ []))

abbrev messages : List Fields
messages =
    dict (("role", Json.str "user") ∷ ("content", Json.arr (Items.cons empty_block Items.nil)) ∷ [])
    ∷ []
