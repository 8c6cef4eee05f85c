-- ===== src/Examples/Sessions.antt =====
-- Two sessions, their events and their toolboxes.
use mechagnome.Base.{
  true, ◌++◌, ◌≢◌, ◌+◌, String, ◌≡◌, refl, ◌⊎◌, inl, inr, none, some, List, [], ◌∷◌, arith, nat_eq,
  string_eq, ltb, if◌then◌else◌, Bool-cases, ◌==◌,
}
use mechagnome.Base.Rows.{find, length, where_rows, delete_rows, max_of}
use mechagnome.Outcome.{Result, ok, err}
use mechagnome.Schema.{Session, has_session, Payload, Event, Db, blank, events_of, session_with_id}
use mechagnome.Schema.Insert.{insert_session, insert_selection, insert_event, context_fits}
use mechagnome.Events.{
  no_refs, event_with, last_seq, append_event_connection, take, page_limit, page_of,
  latest_completed,
}
use mechagnome.Events.Gapless.{Gapless, append-ok, append-Gapless}
use mechagnome.Events.Paging.{page_of-Numbered, drop}
use mechagnome.Sessions.Lineage.{root_session_id}
use mechagnome.Sessions.Lineage.Rooted.{AllRooted, insert_session-AllRooted, root_session_id-parent}
use mechagnome.Sessions.Selection.Modes.{Selects, Distinct, next_selection-Selects}
use mechagnome.Examples.Streams.{host}
use mechagnome.Schema.Host.{Kernel}
use mechagnome.Sessions.Selection.{
  add, dedup, next_selection, selection_ids, selection_rows, replace_selection,
}
use mechagnome.Sessions.Selection.Order.{selection_ids-replace}
use mechagnome.Sessions.Create.{
  child_session, Scope, ChildRequest, root_session, check_context, create_child_connection,
}
use mechagnome.Sessions.Create.Children.{create_child-inherits, create_child_context}

abbrev state_of : {A : Type 0} → Result (A × Db) → Db
state_of (ok (a, db)) = db
state_of (err e) = blank

abbrev kept : Result Db → Db
kept (ok db) = db
kept (err e) = blank

abbrev base : Db
base = record blank {
  toolboxes = record { id = "t1"; name = "main" } ∷ record { id = "t2"; name = "more" } ∷ [];
  sessions = root_session "s1" "/work" "conversation" ∷ [];
}

base-AllRooted : AllRooted base.sessions
unfolding find
base-AllRooted session there = elim (Bool-cases ("s1" == session)) [
  | inl mine ↦ (root_session "s1" "/work" "conversation", rw mine refl, inl refl)
  | inr other ↦ absurd (ground (arith, other))
]

abbrev parent : Scope
parent = record { session_id = "s1"; toolbox_ids = "t2" ∷ "t1" ∷ []; cwd = "/work" }

abbrev child_request : ChildRequest
child_request = record {
  kind = "conversation";
  origin_scope = none;
  origin_call_id = none;
  context_source_session_id = some "s1";
  context_through_seq = some 0;
}

abbrev grown : Db
grown = state_of (create_child_connection "s2" parent child_request base)

grown_ok : create_child_connection "s2" parent child_request base ≡ ok ("s2", grown)
unfolding create_child_connection find insert_session insert_selection check_context
    latest_completed where_rows max_of context_fits
grown_ok = refl

unselected : selection_rows base "s2" ≡ []
unfolding where_rows
unselected = refl

create_child-inherits_example :
    (selection_ids grown "s2" ≡ "t2" ∷ "t1" ∷ [])
    × AllRooted grown.sessions
    × ((root : String) × (root_session_id grown "s2" ≡ ok root)
        × (root_session_id grown "s1" ≡ ok root))
create_child-inherits_example =
    create_child-inherits "s2" parent child_request base "s2" grown base-AllRooted unselected
      grown_ok

child_row :
    find (session_with_id "s2") grown.sessions ≡ some (child_session "s2" parent child_request)
unfolding create_child_connection find insert_session insert_selection check_context
    latest_completed where_rows max_of context_fits
child_row = refl

root_session_id-parent_example :
    (root : String) × (root_session_id grown "s2" ≡ ok root)
    × (root_session_id grown "s1" ≡ ok root)
root_session_id-parent_example =
    root_session_id-parent grown "s2" "s1" (child_session "s2" parent child_request)
      (create_child-inherits "s2" parent child_request base "s2" grown base-AllRooted unselected
        grown_ok).1
      child_row refl

third_ok :
    insert_session base (root_session "s3" "/" "generic")
    ≡ ok (kept (insert_session base (root_session "s3" "/" "generic")))
unfolding insert_session find context_fits
third_ok = refl

insert_session-AllRooted_example :
    AllRooted (kept (insert_session base (root_session "s3" "/" "generic"))).sessions
insert_session-AllRooted_example =
    insert_session-AllRooted base (root_session "s3" "/" "generic")
      (kept (insert_session base (root_session "s3" "/" "generic"))) refl third_ok base-AllRooted

create_child_context_example :
    (child : Session) × (find (session_with_id "s2") grown.sessions ≡ some child)
    × (child.parent_session_id ≡ some "s1")
    × (((child_request.context_source_session_id ≡ none)
          × (child.context_source_session_id ≡ none)
          × (child.context_through_seq ≡ none))
        ⊎ ((child_request.context_source_session_id ≡ some "s1")
            × (child.context_source_session_id ≡ some "s1")
            × (child.context_through_seq ≡ some (latest_completed base "s1"))))
create_child_context_example =
    create_child_context "s2" parent child_request base "s2" grown grown_ok

base-Gapless : Gapless base
unfolding where_rows
base-Gapless session = tt

abbrev logged : Db
logged = state_of (append_event_connection "s1" "input" (Payload.json "{}") no_refs base)

logged_ok : append_event_connection "s1" "input" (Payload.json "{}") no_refs base ≡ ok (1, logged)
unfolding append_event_connection insert_event last_seq find where_rows max_of
logged_ok = refl

append-Gapless_example : Gapless logged × (1 ≡ length (events_of base "s1") + 1)
append-Gapless_example =
    append-Gapless base "s1" "input" (Payload.json "{}") no_refs 1 logged logged_ok base-Gapless

abbrev log : List Event
log =
    event_with "s1" 1 "input" (Payload.json "{}") no_refs
    ∷ event_with "s1" 2 "call_started" (Payload.json "{}") no_refs
    ∷ event_with "s1" 3 "final" (Payload.json "{}") no_refs
    ∷ []

page_of_example : page_of log 1 1 ≡ record {
  events = take (page_limit 1) (drop 1 log);
  next_after = if ltb (page_limit 1) (length (drop 1 log)) then some (1 + page_limit 1) else none;
}
page_of_example = page_of-Numbered log 1 1 (refl, (refl, (refl, tt)))

abbrev chosen : Db
chosen = kept (replace_selection base "s1" ("t2" ∷ "t1" ∷ []))

chosen_ok : replace_selection base "s1" ("t2" ∷ "t1" ∷ []) ≡ ok chosen
unfolding replace_selection insert_selection find delete_rows where_rows
chosen_ok = refl

selection_ids-replace_example : selection_ids chosen "s1" ≡ "t2" ∷ "t1" ∷ []
selection_ids-replace_example = selection_ids-replace base "s1" ("t2" ∷ "t1" ∷ []) chosen chosen_ok

abbrev kernel : Kernel
kernel = record { cwd = "/work"; max_depth = 12; max_calls = 100; host = host }

added_ok :
    next_selection kernel add base "t3" "s1" ("t1" ∷ []) (dedup ("t2" ∷ "t1" ∷ "t2" ∷ []))
    ≡ ok ("t1" ∷ "t2" ∷ [], base)
unfolding next_selection dedup where_rows
added_ok = refl

something : ◌≢◌ {A = List String} ("t1" ∷ []) []
something h = absurd (ground arith)

next_selection-Selects_example :
    Selects add ("t1" ∷ []) ("t2" ∷ "t1" ∷ "t2" ∷ []) ("t1" ∷ "t2" ∷ [])
    × Distinct ("t1" ∷ "t2" ∷ [])
    × ◌≢◌ {A = List String} ("t1" ∷ "t2" ∷ []) []
next_selection-Selects_example =
    next_selection-Selects kernel base "t3" "s1" ("t1" ∷ []) add ("t2" ∷ "t1" ∷ "t2" ∷ [])
      ("t1" ∷ "t2" ∷ []) base (refl, tt) something added_ok

known : has_session base "s1" ≡ true
unfolding find
known = refl

append-ok_example :
    append_event_connection "s1" "input" (Payload.json "{}") no_refs base
    ≡ ok (
      last_seq base "s1" + 1,
      record base {
        events =
            base.events
            ++ (event_with "s1" (last_seq base "s1" + 1) "input" (Payload.json "{}") no_refs ∷ []);
      },
    )
append-ok_example = append-ok base "s1" "input" (Payload.json "{}") no_refs known refl refl
