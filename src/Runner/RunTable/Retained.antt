-- ===== src/Runner/RunTable/Retained.antt =====
-- No run is dropped from the table before it has ended.
use mechagnome.Base.{
  ℕ, String, ◌≡◌, refl, sym, ap, ◌∙◌, inl, inr, Bool, true, false, some, List, [], ◌∷◌, ◌++◌, arith,
  ◌==◌, nat_eq, Bool-cases, Option-cases, eq_of_beq,
}
use mechagnome.Base.Rows.{find-delete_other, find, is_some, find-append, or_else}
use mathlib.Core.Option
use mechagnome.Outcome.{Result-cases}
use mechagnome.Schema.{Db}
use mechagnome.Sessions.Create.{create_child_session}
use mechagnome.Runner.ToolRun.{
  ToolRun, Report, is_active, append_output, request_cancel, finish_run,
}
use mechagnome.Runner.RunTable.{
  Entry, Runs, StartRequest, Event, start, output, cancel_request, close_request, finish_event,
  retire_event, drop_event, drop_unstarted, entry_with, change, shut_down, check_start, entry_of,
  trace_request, start_detached, visible_run, cancel_tool_run, close, finish, retire, contains_id,
  step, steps, fresh,
}
use mechagnome.Runner.RunTable.Tame.{
  is_listed, IsSound, find-change, trim-keeps, contains_id-append,
}
use mechagnome.Runner.RunTable.Sound.{steps-IsSound}

-- A run that is there stays there through a change.
change-stays :
    (j i : ℕ) (f : ToolRun → ToolRun) (es : List Entry) (e : Entry)
    → find (entry_with j) es ≡ some e
    → is_some (find (entry_with j) (change i f es)) ≡ true
change-stays j i f es e found = ap is_some (find-change j i f es ∙ ap (Option.map _) found)

shut_down-stays :
    (j : ℕ) (es : List Entry) (e : Entry)
    → find (entry_with j) es ≡ some e
    → is_some (find (entry_with j) (shut_down es)) ≡ true
unfolding find shut_down
shut_down-stays j [] e found = absurd (ground arith)
shut_down-stays j (x ∷ es) e found = elim (Bool-cases (entry_with j x)) [
  | inl mine ↦ rw mine refl
  | inr other ↦ rw other (shut_down-stays j es e (rw other at found))
]

start-stays :
    (j : ℕ) (uuid : String) (thread_starts : Bool) (r : StartRequest) (s : Runs) (e : Entry)
    → find (entry_with j) s.runs ≡ some e
    → is_some (find (entry_with j) (start_detached uuid thread_starts r s).1.runs) ≡ true
unfolding start_detached
start-stays j uuid thread_starts r s e found = elim (Result-cases (check_start r s)) [
  | inl (x, bad) ↦ rw (start_detached, bad) (ap is_some found)
  | inr (_, good) ↦ elim (Result-cases (create_child_session uuid r.scope trace_request s.db).0) [
    | inl (x, failed) ↦ rw (start_detached, good, failed) (ap is_some found)
    | inr (t, made) ↦
        let new = entry_of r s.next t in
        let still : is_some (find (entry_with j) (s.runs ++ (new ∷ []))) ≡ true = ap is_some (
          find-append (entry_with j) s.runs (new ∷ [])
          ∙ ap (λ o. or_else o (find (entry_with j) (new ∷ []))) found) in
        elim (Bool-cases thread_starts) [
          | inr fails ↦ rw (start_detached, good, made, fails) still
          | inl goes ↦ rw (start_detached, good, made, goes) still
        ]
  ]
]

cancel-stays :
    (j i : ℕ) (session : String) (s : Runs) (e : Entry)
    → find (entry_with j) s.runs ≡ some e
    → is_some (find (entry_with j) (cancel_tool_run i session s).1.runs) ≡ true
unfolding cancel_tool_run
cancel-stays j i session s e found = elim (Result-cases (visible_run s i session)) [
  | inl (x, hidden) ↦ rw (cancel_tool_run, hidden) (ap is_some found)
  | inr (x, seen) ↦
      rw (cancel_tool_run, seen) (change-stays j i (λ t. (request_cancel t).0) s.runs e found)
]

close-stays :
    (j : ℕ) (s : Runs) (e : Entry)
    → find (entry_with j) s.runs ≡ some e
    → is_some (find (entry_with j) (close s).runs) ≡ true
unfolding close
close-stays j s e found = elim (Bool-cases s.closed) [
  | inl closed ↦ rw (close, closed) (ap is_some found)
  | inr open_ ↦ rw (close, open_) (shut_down-stays j s.runs e found)
]

finish-stays :
    (j i : ℕ) (report : Report) (s : Runs) (e : Entry)
    → find (entry_with j) s.runs ≡ some e
    → is_some (find (entry_with j) (finish i report s).runs) ≡ true
unfolding finish
finish-stays j i report s e found = elim (Option-cases (find (entry_with i) s.runs)) [
  | inl gone ↦ rw (finish, gone) (ap is_some found)
  | inr (d, here) ↦ elim (Bool-cases (is_active d.state.status)) [
    | inr over ↦ rw (finish, here, over) (ap is_some found)
    | inl woken ↦
        rw (finish, here, woken) (change-stays j i (λ t. finish_run t report) s.runs e found)
  ]
]

retire-stays :
    (j i : ℕ) (s : Runs) (e : Entry)
    → is_listed s j ≡ false
    → find (entry_with j) s.runs ≡ some e
    → is_some (find (entry_with j) (retire i s).runs) ≡ true
unfolding retire
retire-stays j i s e alive found = elim (Bool-cases (contains_id s.finishing i)) [
  | inr other ↦ rw (retire, other) (ap is_some found)
  | inl mine ↦
      let apart : contains_id (s.completed ++ (i ∷ [])) j ≡ false = elim (Bool-cases (i == j)) [
        | inl same ↦
            let here : contains_id s.finishing j ≡ true =
              ap (contains_id s.finishing) (sym (eq_of_beq i j same)) ∙ mine in
            absurd (ground (arith, alive, here))
        | inr different ↦ ground (arith, contains_id-append s.completed i j, alive, different)
      ] in
      rw (retire, mine) (ap is_some (trim-keeps (s.completed ++ (i ∷ [])) s.runs j apart ∙ found))
]

drop-stays :
    (j i : ℕ) (s : Runs) (e : Entry)
    → contains_id s.unstarted j ≡ false
    → find (entry_with j) s.runs ≡ some e
    → is_some (find (entry_with j) (drop_unstarted i s).runs) ≡ true
unfolding drop_unstarted
drop-stays j i s e begun found = elim (Bool-cases (contains_id s.unstarted i)) [
  | inr other ↦ rw (drop_unstarted, other) (ap is_some found)
  | inl mine ↦ elim (Bool-cases (i == j)) [
    | inl same ↦
        let here : contains_id s.unstarted j ≡ true =
          ap (contains_id s.unstarted) (sym (eq_of_beq i j same)) ∙ mine in
        absurd (ground (arith, begun, here))
    | inr different ↦
        rw (drop_unstarted, mine)
          (ap is_some (
            find-delete_other (entry_with j) (entry_with i)
              (λ x at. let at_i = eq_of_beq x.run_id i at in rw at_i different) s.runs
            ∙ found))
  ]
]

step-stays :
    (s : Runs) (x : Event) (j : ℕ) (e : Entry)
    → IsSound s
    → find (entry_with j) s.runs ≡ some e
    → is_active e.state.status ≡ true
    → contains_id s.unstarted j ≡ false
    → is_some (find (entry_with j) (step s x).runs) ≡ true
unfolding step
step-stays s (start uuid thread_starts r) j e w found active begun =
    start-stays j uuid thread_starts r s e found
step-stays s (output i bytes) j e w found active begun =
    change-stays j i (λ t. append_output t bytes) s.runs e found
step-stays s (cancel_request i session) j e w found active begun =
    cancel-stays j i session s e found
step-stays s close_request j e w found active begun = close-stays j s e found
step-stays s (finish_event i report) j e w found active begun = finish-stays j i report s e found
step-stays s (retire_event i) j e w found active begun = elim (Bool-cases (is_listed s j)) [
  | inl gone ↦ absurd (ground (arith, active, w.over j e gone found))
  | inr alive ↦ retire-stays j i s e alive found
]
step-stays s (drop_event i) j e w found active begun = drop-stays j i s e begun found

-- Whatever has happened to a new runner, no step drops a run that is active then, unless its thread
-- could not start: its id stays in the table.
pub steps-retain :
    (db : Db) (es : List Event) (x : Event) (i : ℕ) (e : Entry)
    → find (entry_with i) (steps (fresh db) es).runs ≡ some e
    → is_active e.state.status ≡ true
    → contains_id (steps (fresh db) es).unstarted i ≡ false
    → is_some (find (entry_with i) (step (steps (fresh db) es) x).runs) ≡ true
unfolding find
steps-retain db es x i e found active begun =
    step-stays (steps (fresh db) es) x i e
      (steps-IsSound (fresh db) es (record {
        drawn = λ i e h. absurd (ground arith);
        ended_drawn = λ i h. absurd (ground arith);
        over = λ i e h g. absurd (ground arith);
      }))
      found active begun
