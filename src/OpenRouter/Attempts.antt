-- ===== src/OpenRouter/Attempts.antt =====
-- The retry loop of a text completion: how often it tries, how long it waits, and what it raises.
use mechagnome.Base.{
  ℕ, zero, suc, ◌+◌, ◌≤◌, ◌<◌, String, ◌≡◌, refl, sym, ap, ◌⊎◌, inl, inr, Bool, true, false, not,
  ◌&&◌, ◌||◌, Option, none, some, List, [], ◌∷◌, arith, leb, ◌==◌, nat_eq, string_eq, if◌then◌else◌,
  Bool-cases, Option-cases,
}
use mechagnome.Base.Rows.{length}
use mechagnome.OpenRouter.Failures.{
  Outcome, answered, failed, Failure, max_retries, is_retryable, retry_delay, finalize_error,
}
use mechagnome.OpenRouter.Retries.{
  Moment, Decision, give_up, go_on, Ended, returned, raised, Attempt, Run, decide, wait_to_retry,
  stop, again, cancelled_error, complete_from, complete,
}

-- The first two delays stay below the limit of `Retry-After`.
retry_delay_le : (e : Failure) (i : ℕ) → i < 2 → retry_delay e i ≤ 30000
unfolding retry_delay
retry_delay_le e zero small = ground arith
retry_delay_le e (suc zero) small = ground arith
retry_delay_le e (suc (suc i)) small = absurd (omega arith)

Outcome-cases :
    (o : Outcome String)
    → ((text : String) × (o ≡ answered text)) ⊎ ((e : Failure) × (o ≡ failed e))
Outcome-cases (answered text) = inl (text, refl)
Outcome-cases (failed e) = inr (e, refl)

pub Decision-cases :
    (d : Decision) → ((e : Failure) × (d ≡ give_up e)) ⊎ ((delay : ℕ) × (d ≡ go_on delay))
Decision-cases (give_up e) = inl (e, refl)
Decision-cases (go_on delay) = inr (delay, refl)

module _ (lower : String → String) (deadline : ℕ) where
  -- What the loop knew when it went on.
  pub decide-go_on :
      (emitted : Bool) (e : Failure) (i : ℕ) (m : Moment) (delay : ℕ)
      → decide lower deadline emitted e i m ≡ go_on delay
      → (emitted ≡ false) × (i < 2) × (is_retryable lower e ≡ true) × (delay ≡ retry_delay e i)
  unfolding decide
  decide-go_on emitted e i m delay done = elim (Bool-cases m.cancelled_at_failure) [
    | inl gone ↦ absurd (ground (arith, rw (decide, gone) at done))
    | inr alive ↦ elim (Bool-cases (emitted || leb max_retries i || not (is_retryable lower e))) [
      | inl last ↦ absurd (ground (arith, rw (decide, alive, last) at done))
      | inr open_ ↦ elim (Option-cases (wait_to_retry e i deadline m)) [
        | inr (e', late) ↦ absurd (ground (arith, rw (decide, late, alive, open_) at done))
        | inl waited ↦
            let same : go_on (retry_delay e i) ≡ go_on delay =
              rw (decide, waited, alive, open_) at done in
            (ground arith, ground arith, ground arith, ground arith)
      ]
    ]
  ]

  abbrev pub Annotated : Failure → ℕ → Type 0
  Annotated e n =
      (e ≡ cancelled_error) ⊎ ((e.details.attempts ≡ some n) × (e.details.max_attempts ≡ some 3))

  pub decide-give_up :
      (emitted : Bool) (e : Failure) (i : ℕ) (m : Moment) (e' : Failure)
      → decide lower deadline emitted e i m ≡ give_up e'
      → Annotated e' (suc i)
  unfolding decide finalize_error
  decide-give_up emitted e i m e' done = elim (Bool-cases m.cancelled_at_failure) [
    | inl gone ↦ inl (ground (arith, rw (decide, gone) at done))
    | inr alive ↦ elim (Bool-cases (emitted || leb max_retries i || not (is_retryable lower e))) [
      | inl last ↦
          let text : Option String = if emitted then some "visible_output" else none in
          let same : give_up (finalize_error e (suc i) (is_retryable lower e) text) ≡ give_up e' =
            rw (decide, alive, last) at done in
          let same' : finalize_error e (suc i) (is_retryable lower e) text ≡ e' = ground arith in
          inr (
            ap (λ (f : Failure). f.details.attempts) (sym same'),
            ap (λ (f : Failure). f.details.max_attempts) (sym same'),
          )
      | inr open_ ↦ elim (Option-cases (wait_to_retry e i deadline m)) [
        | inr (e'', late) ↦
            let same : give_up (finalize_error e'' (suc i) (is_retryable lower e'') none)
                ≡ give_up e' =
              rw (decide, late, alive, open_) at done in
            let same' : finalize_error e'' (suc i) (is_retryable lower e'') none ≡ e' =
              ground arith in
            inr (
              ap (λ (f : Failure). f.details.attempts) (sym same'),
              ap (λ (f : Failure). f.details.max_attempts) (sym same'),
            )
        | inl waited ↦ absurd (ground (arith, rw (decide, waited, alive, open_) at done))
      ]
    ]
  ]

  -- The end of the loop, by the outcome of its last attempt, number `n` from 0.
  abbrev pub Final : Outcome String → Ended String → ℕ → Type 0
  Final (answered text) end n = end ≡ returned text
  Final (failed e) end n = (e' : Failure) × (end ≡ raised e') × Annotated e' (suc n)

  abbrev pub all_le : ℕ → List ℕ → Bool
  all_le bound [] = true
  all_le bound (n ∷ ns) = leb n bound && all_le bound ns

  -- A run of the loop from attempt `i` on.
  pub record Tried (world : ℕ → Attempt) (i : ℕ) (r : Run String) : Type 0 where
    pub few : r.attempts + i ≤ 3
    pub waits : suc (length r.delays) ≡ r.attempts
    pub short : all_le 30000 r.delays ≡ true
    pub retried :
        (j : ℕ)
        → suc j < r.attempts
        → (e : Failure) × ((world (j + i)).outcome ≡ failed e) × (is_retryable lower e ≡ true)
    pub final : (n : ℕ) → suc n ≡ r.attempts → Final (world (n + i)).outcome r.ended (n + i)

  module _ (world : ℕ → Attempt) (i : ℕ) where
    -- One attempt that ends the loop.
    stop-Tried :
        (end : Ended String) → i ≤ 2 → Final (world i).outcome end i → Tried world i (stop end)
    stop-Tried end small f = record {
      few = omega arith;
      waits = refl;
      short = refl;
      retried = λ j more. absurd (omega arith);
      final = λ n only. let here : n + i ≡ i = omega (arith, only) in rw here f;
    }

    earlier :
        (e : Failure) (rest : Run String)
        → (world i).outcome ≡ failed e
        → is_retryable lower e ≡ true
        → Tried world (suc i) rest
        → (j : ℕ) → suc j < suc rest.attempts
        → (e : Failure) × ((world (j + i)).outcome ≡ failed e) × (is_retryable lower e ≡ true)
    earlier e rest failing retryable t zero more =
        let here : 0 + i ≡ i = omega arith in rw here (e, failing, retryable)
    earlier e rest failing retryable t (suc j) more =
        let here : suc j + i ≡ j + suc i = omega arith in
        rw here (t.retried j (omega (arith, more)))

    last_one :
        (rest : Run String)
        → Tried world (suc i) rest
        → (n : ℕ) → suc n ≡ suc rest.attempts
        → Final (world (n + i)).outcome rest.ended (n + i)
    last_one rest t zero only = absurd (omega (arith, only, t.waits))
    last_one rest t (suc n) only =
        let here : suc n + i ≡ n + suc i = omega arith in rw here (t.final n (omega (arith, only)))

    -- An attempt that failed, and the rest of the loop.
    again-Tried :
        (e : Failure) (delay : ℕ) (rest : Run String)
        → (world i).outcome ≡ failed e
        → is_retryable lower e ≡ true
        → delay ≤ 30000
        → Tried world (suc i) rest
        → Tried world i (again delay rest)
    again-Tried e delay rest failing retryable short t = record {
      few = omega (arith, t.few);
      waits = ap suc t.waits;
      short = ground (arith, t.short);
      retried = earlier e rest failing retryable t;
      final = last_one rest t;
    }

  -- One pass of the loop, if the passes after it do their part.
  one_pass :
      (world : ℕ → Attempt) (tries i : ℕ)
      → suc tries + i ≡ 3
      → (i < 2 → Tried world (suc i) (complete_from lower deadline world tries (suc i)))
      → Tried world i (complete_from lower deadline world (suc tries) i)
  unfolding complete_from
  one_pass world tries i range later = elim (Outcome-cases (world i).outcome) [
    | inl (text, answer) ↦
        rw (complete_from, answer)
          (stop-Tried world i (returned text) (omega arith) (rw answer refl))
    | inr (e, failing) ↦ elim (Decision-cases (decide lower deadline false e i (world i).moment)) [
      | inl (e', up) ↦
          rw (complete_from, failing, up)
            (stop-Tried world i (raised e') (omega arith)
              (rw failing (e', refl, decide-give_up false e i (world i).moment e' up)))
      | inr (delay, on) ↦
          let (_, early, retryable, same) = decide-go_on false e i (world i).moment delay on in
          let short : delay ≤ 30000 = omega (arith, same, retry_delay_le e i early) in
          rw (complete_from, failing, on)
            (again-Tried world i e delay (complete_from lower deadline world tries (suc i)) failing
              retryable short (later early))
    ]
  ]

  complete_from-Tried :
      (world : ℕ → Attempt) (tries i : ℕ)
      → suc tries + i ≡ 3
      → Tried world i (complete_from lower deadline world (suc tries) i)
  complete_from-Tried world zero i range =
      one_pass world zero i range (λ early. absurd (omega (arith, early, range)))
  complete_from-Tried world (suc tries) i range =
      one_pass world (suc tries) i range
        (λ early. complete_from-Tried world tries (suc i) (omega (arith, range)))

  -- A completion with an API key makes at most 3 attempts, with a wait of at most 30 seconds between
  -- two of them; every attempt before the last failed with an error that is worth a retry; and the
  -- last attempt's answer is returned, or else an error is raised: that of a cancelled request, or one
  -- whose details give the number of attempts.
  pub complete-Tried :
      (api_key : String) (world : ℕ → Attempt)
      → (api_key == "") ≡ false
      → Tried world 0 (complete lower deadline api_key world)
  unfolding complete
  complete-Tried api_key world given = rw (complete, given) (complete_from-Tried world 2 0 refl)
