-- ===== src/Runner/ToolRun/Life.antt =====
-- What holds of a run whatever happens to it, and in which order.
use mechagnome.Base.{
  ℕ, zero, suc, ◌+◌, ◌-◌, ◌≤◌, ◌≡◌, refl, ◌∙◌, ◌⊎◌, inl, inr, true, false, none, some, List, [],
  ◌∷◌, ◌++◌, arith, ltb, nat_eq, string_eq, Bool-cases,
}
use mechagnome.Base.Rows.{length, is_some}
use mechagnome.Runner.ToolRun.{
  running, cancelling, succeeded, failed, cancelled, cancel, ToolRun, started, max_output_bytes,
  drop, drop_continuations, keep_tail, append_output, is_active, request_cancel, request_shutdown,
  Report, finish_run, Event, output, cancel_request, shutdown_request, finish, step, run_events,
}

-- What holds between two events.
pub record IsConsistent (run : ToolRun) : Type 0 where
  pub bounded : length run.output_tail ≤ max_output_bytes
  pub stop_known : run.stop_requested ≡ is_some run.stop_reason
  pub running_free : run.status ≡ running → run.stop_reason ≡ none
  pub cancelling_stopped : run.status ≡ cancelling → is_some run.stop_reason ≡ true
  pub success_shown :
      run.status ≡ succeeded
      → (is_some run.result ≡ true) × (run.error ≡ none) × (run.stop_reason ≡ none)
  pub failure_shown :
      (run.status ≡ failed) ⊎ (run.status ≡ cancelled)
      → (is_some run.error ≡ true) × (run.result ≡ none)
  pub cancelled_asked : run.status ≡ cancelled → run.stop_reason ≡ some cancel

length-drop : (n : ℕ) (xs : List ℕ) → length (drop n xs) ≡ length xs - n
length-drop zero xs = omega arith
length-drop (suc n) [] = omega arith
length-drop (suc n) (x ∷ xs) = omega (arith, length-drop n xs)

length-drop_continuations-le : (bs : List ℕ) → length (drop_continuations bs) ≤ length bs
unfolding drop_continuations
length-drop_continuations-le [] = omega arith
length-drop_continuations-le (b ∷ bs) = ground (arith, length-drop_continuations-le bs)

length-keep_tail-le : (limit : ℕ) (bs : List ℕ) → length (keep_tail limit bs) ≤ limit
unfolding keep_tail
length-keep_tail-le limit bs = omega (
  arith,
  length-drop_continuations-le (drop (length bs - limit) bs),
  length-drop (length bs - limit) bs,
)

append_output-IsConsistent :
    (run : ToolRun) (bytes : List ℕ) → IsConsistent run → IsConsistent (append_output run bytes)
unfolding append_output
append_output-IsConsistent run [] h = h
append_output-IsConsistent run (b ∷ bs) h =
    elim (Bool-cases (ltb max_output_bytes (length (run.output_tail ++ (b ∷ bs))))) [
      | inl long ↦ rw long (record {
        bounded = length-keep_tail-le max_output_bytes (run.output_tail ++ (b ∷ bs));
        stop_known = h.stop_known;
        running_free = h.running_free;
        cancelling_stopped = h.cancelling_stopped;
        success_shown = h.success_shown;
        failure_shown = h.failure_shown;
        cancelled_asked = h.cancelled_asked;
      })
      | inr short ↦ rw short (record {
        bounded = ground arith;
        stop_known = h.stop_known;
        running_free = h.running_free;
        cancelling_stopped = h.cancelling_stopped;
        success_shown = h.success_shown;
        failure_shown = h.failure_shown;
        cancelled_asked = h.cancelled_asked;
      })
    ]

request_cancel-IsConsistent :
    (run : ToolRun) → IsConsistent run → IsConsistent (request_cancel run).0
unfolding request_cancel
request_cancel-IsConsistent run h = ground arith

request_shutdown-IsConsistent :
    (run : ToolRun) → IsConsistent run → IsConsistent (request_shutdown run)
unfolding request_shutdown
request_shutdown-IsConsistent run h = ground arith

finish_run-IsConsistent :
    (run : ToolRun) (report : Report) → IsConsistent run → IsConsistent (finish_run run report)
unfolding finish_run
finish_run-IsConsistent run report h = ground arith

step-IsConsistent : (run : ToolRun) (e : Event) → IsConsistent run → IsConsistent (step run e)
unfolding step
step-IsConsistent run (output bytes) h = append_output-IsConsistent run bytes h
step-IsConsistent run cancel_request h = request_cancel-IsConsistent run h
step-IsConsistent run shutdown_request h = request_shutdown-IsConsistent run h
step-IsConsistent run (finish report) h = finish_run-IsConsistent run report h

pub started-IsConsistent : IsConsistent started
started-IsConsistent = record {
  bounded = omega arith;
  stop_known = refl;
  running_free = λ h. refl;
  cancelling_stopped = λ h. absurd (ground arith);
  success_shown = λ h. absurd (ground arith);
  failure_shown = λ h. absurd (ground arith);
  cancelled_asked = λ h. absurd (ground arith);
}

-- Any output, cancellation, shutdown and end, in any order, keep a detached run consistent: at most
-- 262144 bytes of output, the stop flag set exactly when there is a reason to stop, none while the
-- run is running and one while it is cancelling; a success with a result, no error and no reason to
-- stop; a failure or a cancellation with an error and no result; and only a run that was asked to
-- cancel is cancelled.
pub run_events-IsConsistent :
    (run : ToolRun) (es : List Event) → IsConsistent run → IsConsistent (run_events run es)
unfolding run_events
run_events-IsConsistent run [] h = h
run_events-IsConsistent run (e ∷ es) h =
    run_events-IsConsistent (step run e) es (step-IsConsistent run e h)

step_terminal :
    (run : ToolRun) (e : Event)
    → is_active run.status ≡ false
    → ((step run e).status ≡ run.status)
      × ((step run e).result ≡ run.result)
      × ((step run e).error ≡ run.error)
unfolding step
step_terminal run (output []) h = (refl, refl, refl)
step_terminal run (output (b ∷ bs)) h = ground arith
step_terminal run cancel_request h = ground arith
step_terminal run shutdown_request h = ground arith
step_terminal run (finish report) h = ground arith

-- An ended run keeps its status, its result and its error through all later events.
pub run_events_terminal :
    (run : ToolRun) (es : List Event)
    → is_active run.status ≡ false
    → ((run_events run es).status ≡ run.status)
      × ((run_events run es).result ≡ run.result)
      × ((run_events run es).error ≡ run.error)
unfolding run_events
run_events_terminal run [] h = (refl, refl, refl)
run_events_terminal run (e ∷ es) h =
    let (s, r, x) = step_terminal run e h in
    let (s', r', x') = run_events_terminal (step run e) es (ground arith) in
    (s' ∙ s, r' ∙ r, x' ∙ x)

-- Watchers can rely on `generation`: an event leaves the run as it was, or raises it by one.
pub step-generation :
    (run : ToolRun) (e : Event)
    → (step run e ≡ run) ⊎ ((step run e).generation ≡ run.generation + 1)
unfolding step
step-generation run (output []) = inl refl
step-generation run (output (b ∷ bs)) = inr (ground arith)
step-generation run cancel_request = ground arith
step-generation run shutdown_request = ground arith
step-generation run (finish report) = ground arith
