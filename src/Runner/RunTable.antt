-- ===== src/Runner/RunTable.antt =====
-- src/mechagnome/isolation.py: the detached runs of an `IsolatedToolRunner`, in `start_detached`,
-- `get_tool_run`, `cancel_tool_run`, `close`, `_finish_run` and `_visible_run_locked`. Each step is what
-- one thread does under the lock; `start_detached` has two such steps where its thread cannot start.
-- The ids that `uuid` draws for runs are numbered in their order.
pub mod Limits
pub mod Tame
pub mod Sound
pub mod Retained
use mechagnome.Base.{
  ℕ, suc, String, Bool, true, false, not, ◌&&◌, ◌||◌, Option, none, some, List, [], ◌∷◌, ◌++◌, ltb,
  leb, ◌==◌, nat_eq, string_eq, if◌then◌else◌,
}
use mechagnome.Base.Rows.{find, where_rows, delete_rows, update_rows, length}
use mechagnome.Outcome.{
  Result, ok, err, ◌>>=◌, ◌>>◌, require, invalid_call_tool_request, detached_runner_closed,
  detached_job_limit, detached_start_failed, unknown_tool_run,
}
use mechagnome.Schema.{Db}
use mechagnome.Schema.Insert.{null_or}
use mechagnome.Schema.Host.{Json}
use mechagnome.Sessions.Create.{Scope, ChildRequest, create_child_session}
use mechagnome.Sessions.Lineage.{is_owner_or_ancestor}
use mechagnome.Tools.Validate.{is_object}
use mechagnome.Runner.ToolRun.{
  ToolRun, Status, Report, started, is_active, append_output, request_cancel, request_shutdown,
  finish_run,
}

-- The fields of `_ToolRun` that stay, and its state.
pub record Entry : Type 0 where
  pub run_id : ℕ
  pub trace_session_id : String
  pub owner_session_id : String
  pub name : String
  pub args : Json
  pub version : Option ℕ
  pub state : ToolRun

abbrev pub entry_with : ℕ → Entry → Bool
entry_with i e = e.run_id == i

-- `_runs`, `_completed_run_ids` and `_closed`; the runs whose threads are between the two locked parts
-- of `_finish_run`; the runs whose threads could not start and that are still to be taken out; the next
-- id; and the kernel's database.
pub record Runs : Type 0 where
  pub db : Db
  pub runs : List Entry
  pub completed : List ℕ
  pub finishing : List ℕ
  pub unstarted : List ℕ
  pub closed : Bool
  pub next : ℕ

abbrev pub max_jobs : ℕ
max_jobs = 4

abbrev pub max_retained : ℕ
max_retained = 64

-- The number of runs that are running or cancelling.
unfoldable pub active_count : List Entry → ℕ
active_count [] = 0
active_count (e ∷ es) =
    let rest = active_count es in if is_active e.state.status then suc rest else rest

pub record StartRequest : Type 0 where
  pub name : String
  pub args : Json
  pub version : Option ℕ
  pub scope : Scope
  pub owner_session_id : String

abbrev pub trace_request : ChildRequest
trace_request = record {
  kind = "generic";
  origin_scope = none;
  origin_call_id = none;
  context_source_session_id = none;
  context_through_seq = none;
}

abbrev pub check_start : StartRequest → Runs → Result (Unit {0})
check_start r s = do
  require (not (r.name == "") && is_object r.args) invalid_call_tool_request
  require (null_or (leb 1) r.version) invalid_call_tool_request
  require (not s.closed) detached_runner_closed
  require (not (leb max_jobs (active_count s.runs))) detached_job_limit

abbrev pub entry_of : StartRequest → (run_id : ℕ) → (trace : String) → Entry
entry_of r i trace = record {
  run_id = i;
  trace_session_id = trace;
  owner_session_id = r.owner_session_id;
  name = r.name;
  args = r.args;
  version = r.version;
  state = started;
}

-- The first locked part of `IsolatedToolRunner.start_detached`, in a scope that is given, and what the
-- call comes to; `thread_starts` says whether `thread.start()` returns. If it raises, the run is in
-- the table until `drop_unstarted` takes it out.
unfoldable pub start_detached :
    (uuid : String) → (thread_starts : Bool) → StartRequest → Runs → Result ℕ × Runs
unfolding active_count
start_detached uuid thread_starts r s = elim (check_start r s) [
  | err e ↦ (err e, s)
  | ok _ ↦
      let (trace, db') = create_child_session uuid r.scope trace_request s.db in
      elim trace [
        | err e ↦ (err e, record s { db = db' })
        | ok t ↦
            let added : Runs = record s {
              db = db';
              runs = s.runs ++ (entry_of r s.next t ∷ []);
              next = suc s.next;
            } in
            elim thread_starts [
              | true ↦ (ok s.next, added)
              | false ↦
                  (err detached_start_failed, record added { unstarted = s.next ∷ s.unstarted })
            ]
      ]
]

-- `IsolatedToolRunner._visible_run_locked`
unfoldable pub visible_run : Runs → (run_id : ℕ) → (session_id : String) → Result Entry
unfolding is_owner_or_ancestor
visible_run s i session = elim (find (entry_with i) s.runs) [
  | none ↦ err unknown_tool_run
  | some e ↦ do
    seen ← is_owner_or_ancestor s.db session e.owner_session_id
    if seen then ok e else err unknown_tool_run
]

abbrev pub change : ℕ → (ToolRun → ToolRun) → List Entry → List Entry
change i f es = update_rows (entry_with i) (λ e. record e { state = f e.state }) es

-- `IsolatedToolRunner.get_tool_run`
unfoldable pub get_tool_run : ℕ → String → Runs → Result Status
unfolding visible_run
get_tool_run i session s = do e ← visible_run s i session; ok e.state.status

-- `IsolatedToolRunner.cancel_tool_run`: the status afterwards, and `cancellation_requested`.
unfoldable pub cancel_tool_run : ℕ → String → Runs → Result (Status × Bool) × Runs
unfolding visible_run request_cancel
cancel_tool_run i session s = elim (visible_run s i session) [
  | err e ↦ (err e, s)
  | ok e ↦
      let (state', requested) = request_cancel e.state in
      (
        ok (state'.status, requested),
        record s { runs = change i (λ state. (request_cancel state).0) s.runs },
      )
]

unfoldable pub shut_down : List Entry → List Entry
shut_down [] = []
shut_down (e ∷ es) = record e { state = request_shutdown e.state } ∷ shut_down es

-- `IsolatedToolRunner.close`, before it joins the threads
unfoldable pub close : Runs → Runs
unfolding shut_down request_shutdown
close s = if s.closed then s else record s { closed = true; runs = shut_down s.runs }

abbrev pub contains_id : List ℕ → ℕ → Bool
contains_id [] i = false
contains_id (x ∷ xs) i = x == i || contains_id xs i

-- The first locked part of `_finish_run`.
unfoldable pub finish : ℕ → Report → Runs → Runs
unfolding finish_run
finish i report s = elim (find (entry_with i) s.runs) [
  | none ↦ s
  | some e ↦
      if is_active e.state.status
      then record s {
        runs = change i (λ state. finish_run state report) s.runs;
        finishing = i ∷ s.finishing;
      }
      else s
]

-- `while len(...) > ...: popleft()`, with the runs taken out
unfoldable pub trim : List ℕ → List Entry → List ℕ × List Entry
trim [] es = ([], es)
trim (i ∷ is) es =
    let shorter = trim is (delete_rows (entry_with i) es) in
    if ltb max_retained (length (i ∷ is)) then shorter else (i ∷ is, es)

abbrev pub other_than : ℕ → ℕ → Bool
other_than i j = not (j == i)

-- The second locked part of `_finish_run`.
unfoldable pub retire : ℕ → Runs → Runs
unfolding trim
retire i s =
    if contains_id s.finishing i
    then (let (completed, runs) = trim (s.completed ++ (i ∷ [])) s.runs in
        record s {
          completed = completed;
          runs = runs;
          finishing = where_rows (other_than i) s.finishing;
        })
    else s

-- The second locked part of `start_detached`, after `thread.start()` has raised.
unfoldable pub drop_unstarted : ℕ → Runs → Runs
drop_unstarted i s =
    if contains_id s.unstarted i
    then record s {
      runs = delete_rows (entry_with i) s.runs;
      unstarted = where_rows (other_than i) s.unstarted;
    }
    else s

pub data Event : Type 0 where
  start : (uuid : String) (thread_starts : Bool) → StartRequest → Event
  output : ℕ → List ℕ → Event
  cancel_request : ℕ → (session : String) → Event
  close_request : Event
  finish_event : ℕ → Report → Event
  retire_event : ℕ → Event
  drop_event : ℕ → Event

unfoldable pub step : Runs → Event → Runs
unfolding start_detached cancel_tool_run close finish retire append_output drop_unstarted
step s (start uuid thread_starts r) = (start_detached uuid thread_starts r s).1
step s (output i bytes) = record s { runs = change i (λ state. append_output state bytes) s.runs }
step s (cancel_request i session) = (cancel_tool_run i session s).1
step s close_request = close s
step s (finish_event i report) = finish i report s
step s (retire_event i) = retire i s
step s (drop_event i) = drop_unstarted i s

unfoldable pub steps : Runs → List Event → Runs
unfolding step
steps s [] = s
steps s (e ∷ es) = steps (step s e) es

abbrev pub fresh : Db → Runs
fresh db = record {
  db = db;
  runs = [];
  completed = [];
  finishing = [];
  unstarted = [];
  closed = false;
  next = 0;
}
