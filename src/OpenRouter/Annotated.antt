-- ===== src/OpenRouter/Annotated.antt =====
-- The diagnostics that `_finalize_error` writes do not change whether an error is worth a retry.
use mechagnome.Base.{ℕ, String, ◌≡◌, refl, inl, inr, false, Option, ◌==◌, string_eq, Bool-cases}
use mechagnome.OpenRouter.Failures.{
  Failure, known_type, retryable_code, is_retryable, finalize_error,
}

module _ (lower : String → String) where
  transport-code :
      (e : Failure)
      → known_type lower e.details.error_type ≡ false
      → is_retryable lower e ≡ retryable_code lower e
  unfolding is_retryable
  transport-code e unknown = rw unknown refl

  -- Annotating an error with the retries' own verdict and any number of attempts keeps the verdict.
  pub is_retryable-finalize_error :
      (e : Failure) (attempts : ℕ) (suppressed : Option String)
      → is_retryable lower (finalize_error e attempts (is_retryable lower e) suppressed)
        ≡ is_retryable lower e
  unfolding is_retryable finalize_error retryable_code
  is_retryable-finalize_error e attempts suppressed =
      elim (Bool-cases (known_type lower e.details.error_type)) [
        | inl known ↦ rw known refl
        | inr unknown ↦ elim (Bool-cases (e.code == "openrouter_transport")) [
          | inl transport ↦ rw (unknown, transport) refl
          | inr other ↦ rw (unknown, other) refl
        ]
      ]
