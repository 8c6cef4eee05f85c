-- ===== src/OpenRouter/Failures.antt =====
-- src/mechagnome/openrouter.py, `OpenRouterError`, `_retryable`, `_retry_delay` and `_finalize_error`.
-- Times are whole milliseconds.
use mechagnome.Base.{
  ℕ, ◌*◌, ◌^◌, min, max, String, Bool, true, false, not, ◌||◌, Option, none, some, List, [], ◌∷◌,
  leb, ◌==◌, nat_eq, string_eq, if◌then◌else◌,
}
use mechagnome.Schema.Host.{contains}

-- A status of HTTP, or the one of a response.
pub data Status : Type 0 where
  http : ℕ → Status
  response : String → Status

-- The entries of `details` that the retries read or write, with texts where they test for `str`.
pub record Details : Type 0 where
  pub error_type : Option String
  pub retryable : Option Bool
  pub status : Option Status
  pub finish_reason : Option String
  pub retry_after : Option ℕ
  pub attempts : Option ℕ
  pub max_attempts : Option ℕ
  pub retry_suppressed : Option String

pub record Failure : Type 0 where
  pub code : String
  pub details : Details

abbrev pub no_details : Details
no_details = record {
  error_type = none;
  retryable = none;
  status = none;
  finish_reason = none;
  retry_after = none;
  attempts = none;
  max_attempts = none;
  retry_suppressed = none;
}

-- A value, or the `OpenRouterError` that is raised.
pub data Outcome (Value : Type 0) : Type 0 where
  answered : Value → Outcome Value
  failed : Failure → Outcome Value

infixl 5 ◌>>=◌ ◌>>◌
abbrev pub ◌>>=◌ : {A B : Type 0} → Outcome A → (rest : A → Outcome B) → Outcome B
failed e >>= rest = failed e
answered a >>= rest = rest a

abbrev pub ◌>>◌ : {B : Type 0} → Outcome (Unit {0}) → (rest : Outcome B) → Outcome B
check >> rest = check >>= λ _. rest

abbrev pub max_retries : ℕ
max_retries = 2

abbrev pub retryable_types : List String
retryable_types =
    "rate_limit_exceeded" ∷ "provider_overloaded" ∷ "provider_unavailable" ∷ "server"
    ∷ "server_error" ∷ "timeout" ∷ "unmapped" ∷ []

abbrev pub actionable_types : List String
actionable_types =
    "authentication" ∷ "content_policy_violation" ∷ "context_length_exceeded" ∷ "invalid_prompt"
    ∷ "invalid_request" ∷ "max_tokens_exceeded" ∷ "payment_required" ∷ "permission_denied"
    ∷ "refusal" ∷ "string_too_long" ∷ "token_limit_exceeded" ∷ []

abbrev pub permanent_reasons : List String
permanent_reasons =
    "content_filter" ∷ "content_policy" ∷ "length" ∷ "max_output_tokens" ∷ "max_tokens" ∷ "refusal"
    ∷ "safety" ∷ []

abbrev pub retryable_reasons : List String
retryable_reasons = "error" ∷ "failed" ∷ "incomplete" ∷ "provider_error" ∷ "server_error" ∷ []

-- `reason in ...`, for what may be None
abbrev pub among : List String → Option String → Bool
among texts none = false
among texts (some t) = contains texts t

unfoldable pub is_known : String → Bool
is_known t = contains retryable_types t || contains actionable_types t

-- `status in _RETRYABLE_HTTP_STATUSES or status >= 500`
unfoldable pub retryable_http : Option Status → Bool
retryable_http (some (http n)) = n == 408 || n == 409 || n == 429 || leb 500 n
retryable_http _ = false

-- `status in {"failed", "incomplete"}`
unfoldable pub retryable_response : Option Status → Bool
retryable_response (some (response s)) = s == "failed" || s == "incomplete"
retryable_response _ = false

abbrev pub is_true : Option Bool → Bool
is_true none = false
is_true (some b) = b

-- `str.lower`
module _ (lower : String → String) where
  abbrev pub lowered : Option String → Option String
  lowered none = none
  lowered (some t) = some (lower t)

  abbrev pub known_type : Option String → Bool
  known_type none = false
  known_type (some t) = is_known (lower t)

  -- The tests of `_retryable` after the one of the error's type.
  unfoldable pub retryable_code : Failure → Bool
  unfolding retryable_http retryable_response
  retryable_code e =
      if e.code == "openrouter_transport"
      then is_true e.details.retryable
      else if e.code == "openrouter_timeout" || e.code == "openrouter_truncated"
      then true
      else if e.code == "openrouter_http"
      then retryable_http e.details.status
      else if e.code == "openrouter_stream"
      then among retryable_types (lowered e.details.error_type)
      else if not (e.code == "openrouter_finish_reason")
      then false
      else if among permanent_reasons (lowered e.details.finish_reason)
      then false
      else retryable_response e.details.status
        || among retryable_reasons (lowered e.details.finish_reason)

  -- `OpenRouterModel._retryable`
  unfoldable pub is_retryable : Failure → Bool
  unfolding is_known retryable_code
  is_retryable e =
      if known_type e.details.error_type
      then among retryable_types (lowered e.details.error_type)
      else retryable_code e

-- `OpenRouterModel._retry_delay`
unfoldable pub retry_delay : Failure → ℕ → ℕ
retry_delay e i = elim e.details.retry_after [
  | none ↦ 500 * 2 ^ i
  | some after ↦ max (500 * 2 ^ i) (min after 30000)
]

-- `OpenRouterModel._finalize_error`
unfoldable pub finalize_error :
    Failure → (attempts : ℕ) → (retryable : Bool) → Option String → Failure
finalize_error e attempts retryable suppressed = record e {
  details = record (e.details) {
    attempts = some attempts;
    max_attempts = some 3;
    retryable = some retryable;
    retry_suppressed = elim suppressed [ none ↦ e.details.retry_suppressed | some t ↦ some t ];
  };
}
