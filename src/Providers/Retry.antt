-- ===== src/Providers/Retry.antt =====
-- `chat_with_retry` of nanobot/providers/base.py, with `_safe_chat` and `_is_transient_error`. The
-- settings of the request do not change between the calls and are left out.
use eeebot_self_evolving.Prelude.{
  ℕ, suc, Bool, false, ◌||◌, Option, none, some, String, List, [], ◌∷◌, ◌++◌, codes, str_eq,
  if◌then◌else◌, or_else,
}
use eeebot_self_evolving.Prelude.Json.{Json, Items, Fields}
use eeebot_self_evolving.Prelude.Effects.{
  Result, ok, raise, exception, cancelled, Method, pure, ◌>>=◌,
}
use eeebot_self_evolving.Memory.Store.{is_inside}
use eeebot_self_evolving.Providers.Sanitize.{strip_image_content}

pub record ToolCallRequest : Type 0 where
  pub id : String
  pub name : String
  pub arguments : Fields
  pub provider_specific_fields : Fields
  pub function_provider_specific_fields : Fields

pub record LlmResponse : Type 0 where
  pub content : Option (List ℕ)
  pub tool_calls : List ToolCallRequest
  pub finish_reason : String
  pub reasoning_content : Option (List ℕ)
  pub thinking_blocks : Items

-- A response with its content and the defaults of the other fields.
abbrev pub plain_response : Option (List ℕ) → String → LlmResponse
plain_response content finish_reason = record {
  content = content;
  tool_calls = [];
  finish_reason = finish_reason;
  reasoning_content = none;
  thinking_blocks = Items.nil;
}

pub record Provider : Type 0 where
  -- the answer of the n-th `chat`
  pub chat : ℕ → List Fields → Result LlmResponse
  pub lower : List ℕ → List ℕ
  pub show : Json → String

-- The number of the next call, and the delays slept so far, the newest last.
pub record Attempts : Type 0 where
  pub calls : ℕ
  pub slept : List ℕ

-- `_CHAT_RETRY_DELAYS`
abbrev pub chat_retry_delays : List ℕ
chat_retry_delays = 1 ∷ 2 ∷ 4 ∷ []

abbrev pub transient_error_markers : List String
transient_error_markers =
    "429" ∷ "rate limit" ∷ "500" ∷ "502" ∷ "503" ∷ "504" ∷ "overloaded" ∷ "timeout" ∷ "timed out"
    ∷ "connection" ∷ "server error" ∷ "temporarily unavailable" ∷ []

unfoldable pub any_inside : List String → List ℕ → Bool
any_inside [] text = false
any_inside (marker ∷ rest) text = is_inside (codes marker) text || any_inside rest text

module _ (p : Provider) where
  unfoldable pub is_transient_error : Option (List ℕ) → Bool
  unfolding any_inside
  is_transient_error content = any_inside transient_error_markers (p.lower (or_else content []))

  abbrev pub is_error : LlmResponse → Bool
  is_error r = str_eq r.finish_reason "error"

  -- `_safe_chat`: an exception becomes an error response.
  unfoldable pub safe_response : Result LlmResponse → Result LlmResponse
  safe_response (ok r) = ok r
  safe_response (raise cancelled) = raise cancelled
  safe_response (raise (exception text)) =
      ok (plain_response (some (codes "Error calling LLM: " ++ codes text)) "error")

  unfoldable pub safe_chat : List Fields → Method Attempts LlmResponse
  unfolding safe_response
  safe_chat messages s = (safe_response (p.chat s.calls messages), record s { calls = suc s.calls })

  abbrev pub sleep : ℕ → Method Attempts Unit
  sleep delay s = (ok tt, record s { slept = s.slept ++ delay ∷ [] })

  -- After an error that is not transient: once more without images, if there are any.
  unfoldable pub without_images : List Fields → LlmResponse → Method Attempts LlmResponse
  unfolding safe_chat
  without_images messages r = elim (strip_image_content p.show messages) [
    | none ↦ pure r
    | some stripped ↦ safe_chat stripped
  ]

  -- The loop over the delays that are left, and the last call.
  unfoldable pub retry_loop : List ℕ → List Fields → Method Attempts LlmResponse
  unfolding safe_chat without_images is_transient_error
  retry_loop [] messages = safe_chat messages
  retry_loop (delay ∷ delays) messages =
      let again = retry_loop delays messages in
      safe_chat messages >>= λ r.
      if is_error r
      then (if is_transient_error r.content
          then (sleep delay >>= λ _. again)
          else without_images messages r)
      else pure r

  unfoldable pub chat_with_retry : List Fields → Method Attempts LlmResponse
  unfolding retry_loop
  chat_with_retry messages = retry_loop chat_retry_delays messages
