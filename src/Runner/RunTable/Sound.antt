-- ===== src/Runner/RunTable/Sound.antt =====
-- The runs among the ended ones have ended, through every step.
use mechagnome.Base.{
  ℕ, suc, String, ◌≡◌, refl, sym, ap, ◌∙◌, ◌⊎◌, inl, inr, Bool, true, false, ◌||◌, Option, some,
  List, [], ◌∷◌, ◌++◌, arith, ◌==◌, nat_eq, if◌then◌else◌, Bool-cases, Option-cases, eq_of_beq,
}
use mechagnome.Base.Rows.{delete_rows, find, where_rows, find-append, find_sound, or_else}
use mathlib.Core.Option
use mechagnome.Outcome.{Result-cases}
use mechagnome.Schema.{Db}
use mechagnome.Sessions.Create.{create_child_session}
use mechagnome.Runner.ToolRun.{
  ended, accepted, ToolRun, Report, is_active, append_output, request_cancel, finish_run,
}
use mechagnome.Runner.RunTable.{
  Entry, Runs, StartRequest, Event, start, output, cancel_request, close_request, finish_event,
  retire_event, drop_event, drop_unstarted, entry_with, change, shut_down, trim, check_start,
  entry_of, trace_request, start_detached, visible_run, cancel_tool_run, close, finish, retire,
  contains_id, other_than, step, steps,
}
use mechagnome.Runner.RunTable.Limits.{append_output-Calms, request_cancel-Calms, finish_run-Calms}
use mechagnome.Runner.RunTable.Tame.{
  find-delete_inv, same_id, is_listed, IsSound, find-change, change-Tamed, shut_down-Tamed,
  Tamed-IsSound, trim-inv, contains_id-append, contains_id-where,
}

search_added :
    (s : Runs) (new : Entry) (i : ℕ) (e : Entry)
    → new.run_id ≡ s.next
    → find (entry_with i) (s.runs ++ (new ∷ [])) ≡ some e
    → (find (entry_with i) s.runs ≡ some e) ⊎ (s.next ≡ i)
unfolding find
search_added s new i e own found = elim (Option-cases (find (entry_with i) s.runs)) [
  | inr (d, here) ↦
      let same : ◌≡◌ {A = Option Entry} (some d) (some e) =
        sym (
          find-append (entry_with i) s.runs (new ∷ [])
          ∙ ap (λ o. or_else o (find (entry_with i) (new ∷ []))) here)
        ∙ found in
      inl (here ∙ same)
  | inl gone ↦ elim (Bool-cases (entry_with i new)) [
    | inl mine ↦ inr (sym own ∙ eq_of_beq new.run_id i mine)
    | inr other ↦
        absurd (ground (arith, found, find-append (entry_with i) s.runs (new ∷ []), gone, other))
  ]
]

-- A new run with the next id.
added-IsSound :
    (s : Runs) (db : Db) (new : Entry)
    → new.run_id ≡ s.next
    → IsSound s
    → IsSound (record s { db = db; runs = s.runs ++ (new ∷ []); next = suc s.next })
added-IsSound s db new own w = record {
  drawn = λ i e found. elim (search_added s new i e own found) [
    | inl old ↦ omega (arith, w.drawn i e old)
    | inr mine ↦ omega (arith, mine)
  ];
  ended_drawn = λ i gone. omega (arith, w.ended_drawn i gone);
  over = λ i e gone found. elim (search_added s new i e own found) [
    | inl old ↦ w.over i e gone old
    | inr mine ↦ absurd (omega (arith, mine, w.ended_drawn i gone))
  ];
}

start-IsSound :
    (uuid : String) (thread_starts : Bool) (r : StartRequest) (s : Runs)
    → IsSound s
    → IsSound (start_detached uuid thread_starts r s).1
unfolding start_detached
start-IsSound uuid thread_starts r s w = elim (Result-cases (check_start r s)) [
  | inl (e, bad) ↦ rw (start_detached, bad) w
  | inr (_, good) ↦ elim (Result-cases (create_child_session uuid r.scope trace_request s.db).0) [
    | inl (e, failed) ↦
        rw (start_detached, good, failed)
          (record { drawn = w.drawn; ended_drawn = w.ended_drawn; over = w.over })
    | inr (t, made) ↦ elim (Bool-cases thread_starts) [
      | inr fails ↦
          let db' = (create_child_session uuid r.scope trace_request s.db).1 in
          let added = added-IsSound s db' (entry_of r s.next t) refl w in
          rw (start_detached, good, made, fails)
            (record { drawn = added.drawn; ended_drawn = added.ended_drawn; over = added.over })
      | inl goes ↦
          rw (start_detached, good, made, goes) (added-IsSound s _ (entry_of r s.next t) refl w)
    ]
  ]
]

cancel-IsSound :
    (i : ℕ) (session : String) (s : Runs) → IsSound s → IsSound (cancel_tool_run i session s).1
unfolding cancel_tool_run
cancel-IsSound i session s w = elim (Result-cases (visible_run s i session)) [
  | inl (e, hidden) ↦ rw (cancel_tool_run, hidden) w
  | inr (e, seen) ↦
      rw (cancel_tool_run, seen)
        (Tamed-IsSound s _ w
          (change-Tamed i (λ t. (request_cancel t).0) s.runs request_cancel-Calms))
]

close-IsSound : (s : Runs) → IsSound s → IsSound (close s)
unfolding close
close-IsSound s w =
    let tamed = Tamed-IsSound s (shut_down s.runs) w (shut_down-Tamed s.runs) in
    elim (Bool-cases s.closed) [
      | inl closed ↦
          rw (close, closed)
            (record { drawn = w.drawn; ended_drawn = w.ended_drawn; over = w.over })
      | inr open_ ↦
          rw (close, open_)
            (record { drawn = tamed.drawn; ended_drawn = tamed.ended_drawn; over = tamed.over })
    ]

retired_before :
    (s : Runs) (i j : ℕ) (ids : Bool)
    → contains_id s.finishing i ≡ true
    → (ids ≡ true → contains_id (s.completed ++ (i ∷ [])) j ≡ true)
    → (ids || contains_id (where_rows (other_than i) s.finishing) j) ≡ true
    → is_listed s j ≡ true
retired_before s i j true mine listed gone = elim (Bool-cases (contains_id s.completed j)) [
  | inl kept ↦ ground (arith, kept)
  | inr other ↦
      let here : (i == j) ≡ true =
        ground (arith, contains_id-append s.completed i j, listed refl, other) in
      let now : contains_id s.finishing j ≡ true =
        ap (contains_id s.finishing) (sym (eq_of_beq i j here)) ∙ mine in
      ground (arith, now)
]
retired_before s i j false mine listed gone =
    ground (arith, contains_id-where (other_than i) s.finishing j gone)

retire-IsSound : (i : ℕ) (s : Runs) → IsSound s → IsSound (retire i s)
unfolding retire
retire-IsSound i s w = elim (Bool-cases (contains_id s.finishing i)) [
  | inr other ↦ rw (retire, other) w
  | inl mine ↦
      let (ids, kept) = trim-inv (s.completed ++ (i ∷ [])) s.runs in
      let left = (trim (s.completed ++ (i ∷ [])) s.runs).0 in
      let before : (j : ℕ)
          → (contains_id left j || contains_id (where_rows (other_than i) s.finishing) j) ≡ true
          → is_listed s j ≡ true =
        λ j. retired_before s i j (contains_id left j) mine (ids j) in
      rw (retire, mine)
        (record {
          drawn = λ j e found. w.drawn j e (kept j e found);
          ended_drawn = λ j gone. w.ended_drawn j (before j gone);
          over = λ j e gone found. w.over j e (before j gone) (kept j e found);
        })
]

changed_self :
    (i : ℕ) (f : ToolRun → ToolRun) (es : List Entry) (e e' : Entry)
    → find (entry_with i) es ≡ some e
    → find (entry_with i) (change i f es) ≡ some e'
    → e'.state ≡ f e.state
changed_self i f es e e' found now =
    let own = find_sound (entry_with i) es e found in
    let same : ◌≡◌ {A = Option Entry}
        (some (if entry_with i e then record e { state = f e.state } else e)) (some e') =
      sym (find-change i i f es ∙ ap (Option.map _) found) ∙ now in
    let same' : ◌≡◌ {A = Option Entry} (some (record e { state = f e.state })) (some e') =
      rw own at same in
    let e'' : record e { state = f e.state } ≡ e' = ground arith in
    ap (λ (x : Entry). x.state) (sym e'')

finish_run_over :
    (t : ToolRun) (report : Report)
    → is_active t.status ≡ true
    → is_active (finish_run t report).status ≡ false
unfolding finish_run ended accepted
finish_run_over t report active = ground (arith, active)

finish-IsSound : (i : ℕ) (report : Report) (s : Runs) → IsSound s → IsSound (finish i report s)
unfolding finish
finish-IsSound i report s w =
    let tame = change-Tamed i (λ t. finish_run t report) s.runs (finish_run-Calms report) in
    elim (Option-cases (find (entry_with i) s.runs)) [
      | inl gone ↦ rw (finish, gone) w
      | inr (e, found) ↦ elim (Bool-cases (is_active e.state.status)) [
        | inr over ↦ rw (finish, found, over) w
        | inl active ↦
            rw (finish, found, active)
              (record {
                drawn = λ j e' now. let (d, here, _) = tame j e' now in w.drawn j d here;
                ended_drawn = λ j gone. elim (Bool-cases (i == j)) [
                  | inl mine ↦ rw (sym (eq_of_beq i j mine)) (w.drawn i e found)
                  | inr other ↦ w.ended_drawn j (ground (arith, gone, other))
                ];
                over = λ j e' gone now. elim (Bool-cases (i == j)) [
                  | inl mine ↦
                      let now' : find (entry_with i) (change i (λ t. finish_run t report) s.runs)
                          ≡ some e' =
                        rw (sym (eq_of_beq i j mine)) at now in
                      ap (λ (t : ToolRun). is_active t.status)
                        (changed_self i (λ t. finish_run t report) s.runs e e' found now')
                      ∙ finish_run_over e.state report active
                  | inr other ↦
                      let (d, here, calm) = tame j e' now in
                      calm (w.over j d (ground (arith, gone, other)) here)
                ];
              })
      ]
    ]

drop-IsSound : (i : ℕ) (s : Runs) → IsSound s → IsSound (drop_unstarted i s)
unfolding drop_unstarted
drop-IsSound i s w = elim (Bool-cases (contains_id s.unstarted i)) [
  | inr other ↦ rw (drop_unstarted, other) w
  | inl mine ↦
      let before : (j : ℕ) (e : Entry)
          → find (entry_with j) (delete_rows (entry_with i) s.runs) ≡ some e
          → find (entry_with j) s.runs ≡ some e =
        λ j e. find-delete_inv j (entry_with i) s.runs e (same_id i j) in
      rw (drop_unstarted, mine)
        (record {
          drawn = λ j e found. w.drawn j e (before j e found);
          ended_drawn = w.ended_drawn;
          over = λ j e gone found. w.over j e gone (before j e found);
        })
]

step-IsSound : (s : Runs) (e : Event) → IsSound s → IsSound (step s e)
unfolding step
step-IsSound s (start uuid thread_starts r) w = start-IsSound uuid thread_starts r s w
step-IsSound s (output i bytes) w =
    Tamed-IsSound s _ w
      (change-Tamed i (λ t. append_output t bytes) s.runs (append_output-Calms bytes))
step-IsSound s (cancel_request i session) w = cancel-IsSound i session s w
step-IsSound s close_request w = close-IsSound s w
step-IsSound s (finish_event i report) w = finish-IsSound i report s w
step-IsSound s (retire_event i) w = retire-IsSound i s w
step-IsSound s (drop_event i) w = drop-IsSound i s w

pub steps-IsSound : (s : Runs) (es : List Event) → IsSound s → IsSound (steps s es)
unfolding steps
steps-IsSound s [] w = w
steps-IsSound s (e ∷ es) w = steps-IsSound (step s e) es (step-IsSound s e w)
