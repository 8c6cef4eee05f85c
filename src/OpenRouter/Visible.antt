-- ===== src/OpenRouter/Visible.antt =====
-- The retry loop of a stream: no text that the caller has seen is sent twice.
use mechagnome.Base.{
  ℕ, zero, suc, ◌+◌, ◌<◌, String, ◌≡◌, refl, ap, ◌∙◌, inl, inr, false, List, [], ◌∷◌, ◌++◌, arith,
  ◌==◌, string_eq, if◌then◌else◌, Option-cases,
}
use mechagnome.OpenRouter.Retries.{
  StreamEvent, StreamAttempt, StreamRun, emitted_text, decide, stream_from, stream,
}
use mechagnome.OpenRouter.Attempts.{decide-go_on, Decision-cases}

module _ {Turn : Type 0} where
  -- The texts that a reader sees.
  unfoldable pub visible : List (StreamEvent Turn) → List String
  visible [] = []
  visible (e ∷ es) =
      let rest = visible es in if e.text_delta == "" then rest else e.text_delta ∷ rest

  visible-append : (es fs : List (StreamEvent Turn)) → visible (es ++ fs) ≡ visible es ++ visible fs
  unfolding visible
  visible-append [] fs = refl
  visible-append (e ∷ es) fs = ground (arith, visible-append es fs)

  visible-nil : (es : List (StreamEvent Turn)) → emitted_text es ≡ false → visible es ≡ []
  unfolding visible emitted_text
  visible-nil [] silent = refl
  visible-nil (e ∷ es) silent = ground (arith, visible-nil es)

  module _ (lower : String → String) (deadline : ℕ) (world : ℕ → StreamAttempt Turn) where
    -- A run from attempt `i` on: some attempt is made, and the last one's text is all that is seen.
    abbrev Seen : ℕ → StreamRun Turn → Type 0
    Seen i r =
        (n : ℕ) × (suc n ≡ r.run.attempts)
        × (n + i < 3)
        × (visible r.yielded ≡ visible (world (n + i)).events)

    one_pass :
        (tries i : ℕ)
        → suc tries + i ≡ 3
        → (i < 2 → Seen (suc i) (stream_from lower deadline world tries (suc i)))
        → Seen i (stream_from lower deadline world (suc tries) i)
    unfolding stream_from
    one_pass tries i range later = elim (Option-cases (world i).failure) [
      | inl fine ↦
          let here : 0 + i ≡ i = omega arith in
          rw (stream_from, fine) (0, refl, omega arith, rw here refl)
      | inr (e, failing) ↦
          elim (Decision-cases
            (decide lower deadline (emitted_text (world i).events) e i (world i).moment)) [
              | inl (e', up) ↦
                  let here : 0 + i ≡ i = omega arith in
                  rw (stream_from, failing, up) (0, refl, omega arith, rw here refl)
              | inr (delay, on) ↦
                  let (silent, early, _, _) =
                    decide-go_on lower deadline (emitted_text (world i).events) e i (world i).moment
                      delay on in
                  let (n, last, near, same) = later early in
                  let rest = stream_from lower deadline world tries (suc i) in
                  let here : suc n + i ≡ n + suc i = omega arith in
                  rw (stream_from, failing, on)
                    (
                      suc n,
                      ap suc last,
                      omega arith,
                      visible-append (world i).events rest.yielded
                          ∙ rw (visible-nil (world i).events silent, here) same,
                    )
            ]
    ]

    stream_from-Seen :
        (tries i : ℕ) → suc tries + i ≡ 3 → Seen i (stream_from lower deadline world (suc tries) i)
    stream_from-Seen zero i range =
        one_pass zero i range (λ early. absurd (omega (arith, early, range)))
    stream_from-Seen (suc tries) i range =
        one_pass (suc tries) i range
          (λ early. stream_from-Seen tries (suc i) (omega (arith, range)))

    -- Of all the text that a streamed request with an API key sends to its caller, through up to 3
    -- attempts, everything comes from the last attempt: an attempt whose text was seen is not repeated.
    pub stream-visible :
        (api_key : String)
        → (api_key == "") ≡ false
        → (n : ℕ) × (suc n ≡ (stream lower deadline api_key world).run.attempts)
          × (n < 3)
          × (visible (stream lower deadline api_key world).yielded ≡ visible (world n).events)
    unfolding stream
    stream-visible api_key given =
        let (n, last, near, same) = stream_from-Seen 2 0 refl in
        let here : n + 0 ≡ n = omega arith in
        rw (stream, given) (n, last, omega (arith, near), rw here at same)
