-- ===== src/Examples/Runs.antt =====
-- A detached run, events of several threads, and requests to stop.
use mechagnome.Base.{
  ◌⊎◌, ℕ, none, ◌&&◌, ◌<◌, ◌≡◌, refl, true, false, List, [], ◌∷◌, nat_eq, string_eq,
}
use mechagnome.Base.Rows.{find, is_some}
use mechagnome.Runner.ToolRun.{
  ToolRun, Event, output, finish, success, started, step, run_events, request_cancel, finish_run,
  is_active, append_output, ended,
}
use mechagnome.Runner.ToolRun.Life.{
  IsConsistent, run_events-IsConsistent, run_events_terminal, started-IsConsistent,
}
use mechagnome.Harness.Sink.{at_seq, Sink, Pending, accept_all}
use mechagnome.Harness.Sink.Order.{IsIdle, Follows}
use mechagnome.Harness.Sink.Delivery.{Each, accept_all-Follows}
use mechagnome.Harness.Stops.{
  Request, graceful_request, reservation, respond_all, check, request_graceful, is_cancel, any_of,
  cancelled_iff,
}
use mechagnome.Harness.Replay.{Replay, Entry, user_message, user, model}

abbrev story : List Event
story =
    output (72 ∷ 105 ∷ []) ∷ Event.cancel_request ∷ finish (success "{}" 2) ∷ output (33 ∷ []) ∷ []

run_events-IsConsistent_example : IsConsistent (run_events started story)
run_events-IsConsistent_example = run_events-IsConsistent started story started-IsConsistent

abbrev over : ToolRun
over = run_events started story

over_inactive : is_active over.status ≡ false
unfolding run_events step request_cancel finish_run append_output ended
over_inactive = refl

run_events_terminal_example :
    ((run_events over story).status ≡ over.status)
    × ((run_events over story).result ≡ over.result)
    × ((run_events over story).error ≡ over.error)
run_events_terminal_example = run_events_terminal over story over_inactive

abbrev sink : Sink
sink = record { next_sequence = 1; pending = [] }

sink-IsIdle : IsIdle sink
unfolding find
sink-IsIdle = refl

abbrev arrivals : List Pending
arrivals =
    record { seq = 2; body = "b" }
    ∷ record { seq = 1; body = "a" }
    ∷ record { seq = 2; body = "b" }
    ∷ []

accept_all-Follows_example :
    Follows sink.next_sequence
      (accept_all sink arrivals).0
      (accept_all sink arrivals).1.next_sequence
    × IsIdle (accept_all sink arrivals).1
    × ((n : ℕ)
        → is_some (find (at_seq n) arrivals) ≡ true
        → (n < (accept_all sink arrivals).1.next_sequence)
          ⊎ (is_some (find (at_seq n) (accept_all sink arrivals).1.pending) ≡ true))
    × ((P : Pending → Type 0)
        → Each P sink.pending
        → Each P arrivals
        → Each P (accept_all sink arrivals).0)
accept_all-Follows_example = accept_all-Follows sink arrivals sink-IsIdle

abbrev requests : List Request
requests = graceful_request true ∷ Request.cancel_request false ∷ graceful_request true ∷ []

cancelled_iff_example :
    (is_some (check (respond_all reservation requests) "so far") ≡ any_of is_cancel requests)
    × ((any_of is_cancel requests && (request_graceful true (respond_all reservation requests)).1)
        ≡ false)
cancelled_iff_example = cancelled_iff requests "so far" true

-- A prompt in a fork that is stopped between a call and its answer.
abbrev source : Replay
source = record { messages = user_message "hi" ∷ []; cancelled_prompt_pending = false }

abbrev asked : List Entry
asked =
    record { seq = 1; entry = user "add" true false }
    ∷ record {
      seq = 2;
      entry = model (record {
        text = none;
        calls = record { id = "c1"; name = "add" } ∷ [];
        reasoning = none;
        reasoning_details = none;
        response_items = none;
      });
    }
    ∷ []
