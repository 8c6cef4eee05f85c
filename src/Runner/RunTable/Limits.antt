-- ===== src/Runner/RunTable/Limits.antt =====
-- The limits of the table of runs: how many are active, and how many ended ones are kept.
use mechagnome.Base.{
  ℕ, suc, ◌≤◌, ◌<◌, String, ◌≡◌, refl, inl, inr, Bool, true, false, not, List, [], ◌∷◌, ◌++◌, arith,
  ltb, leb, ◌==◌, nat_eq, string_eq, ◌&&◌, Bool-cases, Option-cases,
}
use mechagnome.Base.Rows.{find, where_rows, delete_rows, update_rows, length}
use mechagnome.Outcome.{
  Error, ok, require, >>=-eq-ok, Result-cases, invalid_call_tool_request, detached_runner_closed,
  detached_job_limit,
}
use mechagnome.Schema.Insert.{null_or}
use mechagnome.Tools.Validate.{is_object}
use mechagnome.Schema.{Db}
use mechagnome.Sessions.Create.{create_child_session}
use mechagnome.Runner.ToolRun.{
  ToolRun, Report, is_active, append_output, request_cancel, request_shutdown, finish_run,
}
use mechagnome.Runner.RunTable.{
  Entry, Runs, StartRequest, Event, start, output, cancel_request, close_request, finish_event,
  retire_event, drop_event, drop_unstarted, entry_with, active_count, change, shut_down, trim,
  max_jobs, max_retained, check_start, entry_of, trace_request, start_detached, visible_run,
  cancel_tool_run, close, finish, retire, contains_id, step, steps, fresh,
}

-- A change of a run that does not make an ended one active.
abbrev pub Calms : (ToolRun → ToolRun) → Type 0
Calms f = (t : ToolRun) → is_active (f t).status ≡ true → is_active t.status ≡ true

pub append_output-Calms : (bytes : List ℕ) → Calms (λ t. append_output t bytes)
unfolding append_output
append_output-Calms [] t h = h
append_output-Calms (b ∷ bs) t h = ground (arith, h)

pub request_cancel-Calms : Calms (λ t. (request_cancel t).0)
unfolding request_cancel
request_cancel-Calms t h = ground (arith, h)

pub request_shutdown-Calms : Calms request_shutdown
unfolding request_shutdown
request_shutdown-Calms t h = ground (arith, h)

pub finish_run-Calms : (report : Report) → Calms (λ t. finish_run t report)
unfolding finish_run
finish_run-Calms report t h = elim (Bool-cases (is_active t.status)) [
  | inl active ↦ active
  | inr over ↦ rw over at h
]

active_count-change :
    (i : ℕ) (f : ToolRun → ToolRun) (es : List Entry)
    → Calms f
    → active_count (change i f es) ≤ active_count es
unfolding active_count update_rows
active_count-change i f [] calms = omega arith
active_count-change i f (e ∷ es) calms =
    ground (arith, calms e.state, active_count-change i f es calms)

active_count-shut_down : (es : List Entry) → active_count (shut_down es) ≤ active_count es
unfolding active_count shut_down
active_count-shut_down [] = omega arith
active_count-shut_down (e ∷ es) =
    ground (arith, request_shutdown-Calms e.state, active_count-shut_down es)

active_count-delete_rows :
    (q : Entry → Bool) (es : List Entry) → active_count (delete_rows q es) ≤ active_count es
unfolding active_count delete_rows where_rows
active_count-delete_rows q [] = omega arith
active_count-delete_rows q (e ∷ es) = ground (arith, active_count-delete_rows q es)

active_count-append :
    (es : List Entry) (e : Entry) → active_count (es ++ (e ∷ [])) ≤ suc (active_count es)
unfolding active_count
active_count-append [] e = ground arith
active_count-append (x ∷ es) e = ground (arith, active_count-append es e)

trim-bounds :
    (is : List ℕ) (es : List Entry)
    → (active_count (trim is es).1 ≤ active_count es) × (length (trim is es).0 ≤ max_retained)
unfolding trim active_count
trim-bounds [] es = (omega arith, omega arith)
trim-bounds (i ∷ is) es = elim (Bool-cases (ltb max_retained (length (i ∷ is)))) [
  | inl many ↦
      let (fewer, kept) = trim-bounds is (delete_rows (entry_with i) es) in
      rw many (omega (arith, fewer, active_count-delete_rows (entry_with i) es), kept)
  | inr few ↦ rw few (omega arith, ground arith)
]

pub record IsBounded (s : Runs) : Type 0 where
  pub few : active_count s.runs ≤ 4
  pub kept : length s.completed ≤ 64

required : (b : Bool) (e : Error) → require b e ≡ ok tt → b ≡ true
required true e done = refl
required false e done = absurd (ground arith)

pub check_start-room :
    (r : StartRequest) (s : Runs) → check_start r s ≡ ok tt → active_count s.runs < 4
check_start-room r s done =
    let (_, _, h₁) =
      >>=-eq-ok (require (not (r.name == "") && is_object r.args) invalid_call_tool_request) _
        done in
    let (_, _, h₂) =
      >>=-eq-ok (require (null_or (leb 1) r.version) invalid_call_tool_request) _ h₁ in
    let (_, _, h₃) = >>=-eq-ok (require (not s.closed) detached_runner_closed) _ h₂ in
    let room : not (leb max_jobs (active_count s.runs)) ≡ true =
      required (not (leb max_jobs (active_count s.runs))) detached_job_limit h₃ in
    ground (arith, room)

start-IsBounded :
    (uuid : String) (thread_starts : Bool) (r : StartRequest) (s : Runs)
    → IsBounded s
    → IsBounded (start_detached uuid thread_starts r s).1
unfolding start_detached
start-IsBounded uuid thread_starts r s b = elim (Result-cases (check_start r s)) [
  | inl (e, bad) ↦ rw (start_detached, bad) b
  | inr (_, good) ↦ elim (Result-cases (create_child_session uuid r.scope trace_request s.db).0) [
    | inl (e, failed) ↦ rw (start_detached, good, failed) (record { few = b.few; kept = b.kept })
    | inr (t, made) ↦ elim (Bool-cases thread_starts) [
      | inr fails ↦
          rw (start_detached, good, made, fails)
            (record {
              few = omega (
                arith,
                check_start-room r s good,
                active_count-append s.runs (entry_of r s.next t),
              );
              kept = b.kept;
            })
      | inl goes ↦
          rw (start_detached, good, made, goes)
            (record {
              few = omega (
                arith,
                check_start-room r s good,
                active_count-append s.runs (entry_of r s.next t),
              );
              kept = b.kept;
            })
    ]
  ]
]

cancel-IsBounded :
    (i : ℕ) (session : String) (s : Runs) → IsBounded s → IsBounded (cancel_tool_run i session s).1
unfolding cancel_tool_run
cancel-IsBounded i session s b = elim (Result-cases (visible_run s i session)) [
  | inl (e, hidden) ↦ rw (cancel_tool_run, hidden) b
  | inr (e, seen) ↦
      rw (cancel_tool_run, seen)
        (record {
          few = omega (
            arith,
            b.few,
            active_count-change i (λ t. (request_cancel t).0) s.runs request_cancel-Calms,
          );
          kept = b.kept;
        })
]

close-IsBounded : (s : Runs) → IsBounded s → IsBounded (close s)
unfolding close
close-IsBounded s b = elim (Bool-cases s.closed) [
  | inl closed ↦ rw (close, closed) (record { few = b.few; kept = b.kept })
  | inr open_ ↦
      rw (close, open_)
        (record { few = omega (arith, b.few, active_count-shut_down s.runs); kept = b.kept })
]

finish-IsBounded :
    (i : ℕ) (report : Report) (s : Runs) → IsBounded s → IsBounded (finish i report s)
unfolding finish
finish-IsBounded i report s b = elim (Option-cases (find (entry_with i) s.runs)) [
  | inl gone ↦ rw (finish, gone) b
  | inr (e, found) ↦ elim (Bool-cases (is_active e.state.status)) [
    | inr over ↦ rw (finish, found, over) b
    | inl active ↦
        rw (finish, found, active)
          (record {
            few = omega (
              arith,
              b.few,
              active_count-change i (λ t. finish_run t report) s.runs (finish_run-Calms report),
            );
            kept = b.kept;
          })
  ]
]

retire-IsBounded : (i : ℕ) (s : Runs) → IsBounded s → IsBounded (retire i s)
unfolding retire
retire-IsBounded i s b = elim (Bool-cases (contains_id s.finishing i)) [
  | inr other ↦ rw (retire, other) b
  | inl mine ↦
      let (fewer, kept) = trim-bounds (s.completed ++ (i ∷ [])) s.runs in
      rw (retire, mine) (record { few = omega (arith, b.few, fewer); kept = kept })
]

drop-IsBounded : (i : ℕ) (s : Runs) → IsBounded s → IsBounded (drop_unstarted i s)
unfolding drop_unstarted
drop-IsBounded i s b = elim (Bool-cases (contains_id s.unstarted i)) [
  | inr other ↦ rw (drop_unstarted, other) b
  | inl mine ↦
      rw (drop_unstarted, mine)
        (record {
          few = omega (arith, b.few, active_count-delete_rows (entry_with i) s.runs);
          kept = b.kept;
        })
]

step-IsBounded : (s : Runs) (e : Event) → IsBounded s → IsBounded (step s e)
unfolding step
step-IsBounded s (start uuid thread_starts r) b = start-IsBounded uuid thread_starts r s b
step-IsBounded s (output i bytes) b = record {
  few = omega (
    arith,
    b.few,
    active_count-change i (λ t. append_output t bytes) s.runs (append_output-Calms bytes),
  );
  kept = b.kept;
}
step-IsBounded s (cancel_request i session) b = cancel-IsBounded i session s b
step-IsBounded s close_request b = close-IsBounded s b
step-IsBounded s (finish_event i report) b = finish-IsBounded i report s b
step-IsBounded s (retire_event i) b = retire-IsBounded i s b
step-IsBounded s (drop_event i) b = drop-IsBounded i s b

steps-from : (s : Runs) (es : List Event) → IsBounded s → IsBounded (steps s es)
unfolding steps
steps-from s [] b = b
steps-from s (e ∷ es) b = steps-from (step s e) es (step-IsBounded s e b)

-- Whatever happens to a new runner, in whatever order, at most 4 of its runs are active at once, and the
-- list of the ended ones that it keeps has at most 64 ids.
pub steps-IsBounded : (db : Db) (es : List Event) → IsBounded (steps (fresh db) es)
unfolding active_count
steps-IsBounded db es = steps-from (fresh db) es (record { few = omega arith; kept = omega arith })
