-- ===== src/Examples/Detached.antt =====
-- A runner with one detached run, and its cancellation.
use mechagnome.Base.{false, ◌≡◌, refl, true, none, some, List, [], ◌∷◌, nat_eq, string_eq}
use mechagnome.Base.Rows.{find, is_some}
use mechagnome.Schema.Host.{Json, Fields}
use mechagnome.Schema.Insert.{insert_session, insert_selection, context_fits}
use mechagnome.Sessions.Create.{create_child_session, create_child_connection, check_context}
use mechagnome.Runner.ToolRun.{success, started}
use mechagnome.Runner.RunTable.{
  contains_id, Entry, Event, StartRequest, start, cancel_request, finish_event, retire_event,
  entry_with, active_count, start_detached, step, steps, fresh,
}
use mechagnome.Runner.RunTable.Limits.{IsBounded, steps-IsBounded}
use mechagnome.Runner.RunTable.Retained.{steps-retain}
use mechagnome.Examples.Writes.{start as start_db}

abbrev request : StartRequest
request = record {
  name = "greet";
  args = Json.object Fields.end;
  version = none;
  scope = record { session_id = "s1"; toolbox_ids = "t1" ∷ []; cwd = "/work" };
  owner_session_id = "s1";
}

abbrev happened : List Event
happened = start "s2" true request ∷ []

abbrev ended_later : List Event
ended_later = start "s2" true request ∷ finish_event 0 (success "1" 1) ∷ retire_event 0 ∷ []

steps-IsBounded_example : IsBounded (steps (fresh start_db) ended_later)
steps-IsBounded_example = steps-IsBounded start_db ended_later

abbrev entry : Entry
entry = record {
  run_id = 0;
  trace_session_id = "s2";
  owner_session_id = "s1";
  name = "greet";
  args = Json.object Fields.end;
  version = none;
  state = started;
}

entry_found : find (entry_with 0) (steps (fresh start_db) happened).runs ≡ some entry
unfolding find steps step start_detached active_count create_child_session create_child_connection
    check_context insert_session insert_selection context_fits
entry_found = refl

begun : contains_id (steps (fresh start_db) happened).unstarted 0 ≡ false
unfolding find steps step start_detached active_count create_child_session create_child_connection
    check_context insert_session insert_selection context_fits
begun = refl

steps-retain_example :
    is_some
      (find (entry_with 0) (step (steps (fresh start_db) happened) (cancel_request 0 "s1")).runs)
    ≡ true
steps-retain_example =
    steps-retain start_db happened (cancel_request 0 "s1") 0 entry entry_found refl begun
