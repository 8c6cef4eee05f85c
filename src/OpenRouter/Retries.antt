-- ===== src/OpenRouter/Retries.antt =====
-- src/mechagnome/openrouter.py, the retry loops `_complete` and `_stream`, with `_wait_to_retry`,
-- `_raise_if_cancelled` and `_remaining_timeout`. What the attempts return, and what the clock and the
-- cancellation event say around them, is the argument `world`. The clients and responses that `_active`
-- keeps for a session are left out, with its check that the session is not cancelled already.
use mechagnome.Base.{
  ℕ, zero, suc, ◌-◌, String, Bool, false, not, ◌||◌, Option, none, some, List, [], ◌∷◌, ◌++◌, leb,
  ◌==◌, string_eq, if◌then◌else◌,
}
use mechagnome.Base.Rows.{or_else}
use mechagnome.OpenRouter.Failures.{
  Failure, Outcome, answered, failed, no_details, max_retries, is_retryable, retry_delay,
  finalize_error,
}

abbrev pub cancelled_error : Failure
cancelled_error = record { code = "openrouter_cancelled"; details = no_details }

abbrev pub timeout_error : Failure
timeout_error = record { code = "openrouter_timeout"; details = no_details }

abbrev pub missing_key : Failure
missing_key = record { code = "missing_api_key"; details = no_details }

abbrev pub no_completion : Failure
no_completion = record { code = "openrouter_response"; details = no_details }

-- Whether the session is cancelled after the failure, before the wait, during it and after it; and
-- the clock before and after the wait.
pub record Moment : Type 0 where
  pub cancelled_at_failure : Bool
  pub cancelled_before : Bool
  pub now_before : ℕ
  pub cancelled_during : Bool
  pub cancelled_after : Bool
  pub now_after : ℕ

-- `OpenRouterModel._wait_to_retry`: the error that it raises, if it does.
unfoldable pub wait_to_retry : Failure → ℕ → (deadline : ℕ) → Moment → Option Failure
wait_to_retry e i deadline m =
    if m.cancelled_before
    then some cancelled_error
    else if leb deadline m.now_before
    then some timeout_error
    else if leb (deadline - m.now_before) (retry_delay e i)
    then some timeout_error
    else if m.cancelled_during || m.cancelled_after
    then some cancelled_error
    else if leb deadline m.now_after
    then some timeout_error
    else none

-- How a request ended: a value, an error, or the end of the loop's range.
pub data Ended (Value : Type 0) : Type 0 where
  returned : Value → Ended Value
  raised : Failure → Ended Value
  out_of_range : Ended Value

-- One attempt of `_complete_once`, and the moment after it.
pub record Attempt : Type 0 where
  pub outcome : Outcome String
  pub moment : Moment

-- What a run of the loop did: the attempts made, the delays waited, and its end.
pub record Run (Value : Type 0) : Type 0 where
  pub ended : Ended Value
  pub attempts : ℕ
  pub delays : List ℕ

abbrev pub stop : {A : Type 0} → Ended A → Run A
stop end = record { ended = end; attempts = 1; delays = [] }

abbrev pub again : {A : Type 0} → ℕ → Run A → Run A
again delay rest = record rest { attempts = suc rest.attempts; delays = delay ∷ rest.delays }

-- `ModelStreamEvent`
pub record StreamEvent (Turn : Type 0) : Type 0 where
  pub text_delta : String
  pub turn : Option Turn

-- What the `except` branch does: it raises an error, or waits and goes on.
pub data Decision : Type 0 where
  give_up : Failure → Decision
  go_on : (delay : ℕ) → Decision

-- One attempt of `_stream_once`: the events that it yields, and the error that it raises then, if any.
pub record StreamAttempt (Turn : Type 0) : Type 0 where
  pub events : List (StreamEvent Turn)
  pub failure : Option Failure
  pub moment : Moment

-- `if event.text_delta: emitted_text = True`
unfoldable pub emitted_text : {Turn : Type 0} → List (StreamEvent Turn) → Bool
emitted_text [] = false
emitted_text (e ∷ es) = not (e.text_delta == "") || emitted_text es

-- What the caller of the stream gets, and how the loop ended.
pub record StreamRun (Turn : Type 0) : Type 0 where
  pub yielded : List (StreamEvent Turn)
  pub run : Run (Unit {0})

module _ (lower : String → String) (deadline : ℕ) where
  -- The `except` branch of attempt `i`.
  unfoldable pub decide : (emitted : Bool) → Failure → ℕ → Moment → Decision
  decide emitted e i m =
      if m.cancelled_at_failure
      then give_up cancelled_error
      else if emitted || leb max_retries i || not (is_retryable lower e)
      then give_up (
          finalize_error e (suc i) (is_retryable lower e)
            (if emitted then some "visible_output" else none))
      else elim (wait_to_retry e i deadline m) [
        | some e' ↦ give_up (finalize_error e' (suc i) (is_retryable lower e') none)
        | none ↦ go_on (retry_delay e i)
      ]

  -- `for retry_index in range(...)` of `_complete`, with `tries` passes left.
  unfoldable pub complete_from : (world : ℕ → Attempt) → (tries i : ℕ) → Run String
  unfolding decide
  complete_from world zero i = record { ended = out_of_range; attempts = 0; delays = [] }
  complete_from world (suc tries) i = elim (world i).outcome [
    | answered text ↦ stop (returned text)
    | failed e ↦ elim (decide false e i (world i).moment) [
      | give_up e' ↦ stop (raised e')
      | go_on delay ↦ again delay (complete_from world tries (suc i))
    ]
  ]

  -- `OpenRouterModel._complete`
  unfoldable pub complete : (api_key : String) → (world : ℕ → Attempt) → Run String
  unfolding complete_from
  complete api_key world =
      if api_key == ""
      then record { ended = raised missing_key; attempts = 0; delays = [] }
      else complete_from world (suc max_retries) 0

  module _ {Turn : Type 0} where
    -- `for retry_index in range(...)` of `_stream`, with `tries` passes left.
    unfoldable pub stream_from : (world : ℕ → StreamAttempt Turn) → (tries i : ℕ) → StreamRun Turn
    unfolding decide emitted_text
    stream_from world zero i = record {
      yielded = [];
      run = record { ended = returned tt; attempts = 0; delays = [] };
    }
    stream_from world (suc tries) i = elim (world i).failure [
      | none ↦ record { yielded = (world i).events; run = stop (returned tt) }
      | some e ↦ elim (decide (emitted_text (world i).events) e i (world i).moment) [
        | give_up e' ↦ record { yielded = (world i).events; run = stop (raised e') }
        | go_on delay ↦
            let rest = stream_from world tries (suc i) in
            record { yielded = (world i).events ++ rest.yielded; run = again delay rest.run }
      ]
    ]

    -- `OpenRouterModel._stream`
    unfoldable pub stream : (api_key : String) → (world : ℕ → StreamAttempt Turn) → StreamRun Turn
    unfolding stream_from
    stream api_key world =
        if api_key == ""
        then record {
          yielded = [];
          run = record { ended = raised missing_key; attempts = 0; delays = [] };
        }
        else stream_from world (suc max_retries) 0

    -- `completed`: the last turn among the events.
    unfoldable pub last_turn : List (StreamEvent Turn) → Option Turn
    last_turn [] = none
    last_turn (e ∷ es) = or_else (last_turn es) e.turn

    abbrev pub completion : Ended (Unit {0}) → Option Turn → Ended Turn
    completion (raised e) turn = raised e
    completion out_of_range turn = out_of_range
    completion (returned _) none = raised no_completion
    completion (returned _) (some turn) = returned turn

    -- `OpenRouterModel._respond`
    unfoldable pub respond : (api_key : String) → (world : ℕ → StreamAttempt Turn) → Ended Turn
    unfolding stream last_turn
    respond api_key world =
        let r = stream api_key world in completion r.run.ended (last_turn r.yielded)
