-- ===== src/Examples/Annotations.antt =====
-- The title of a session is set.
use mechagnome.Base.{String, ◌≡◌, refl, ◌+◌, true, none, some, List, [], ◌∷◌, nat_eq, string_eq}
use mechagnome.Base.Rows.{find, update_rows, where_rows, max_of, length}
use mechagnome.Outcome.{Result, ok}
use mechagnome.Schema.{Session, Db, blank, session_with_id}
use mechagnome.Schema.Insert.{insert_event}
use mechagnome.Events.{last_seq, append_event_connection}
use mechagnome.Sessions.Create.{root_session}
use mechagnome.Sessions.Lineage.{Metadata, root_from, root_session_id, session_metadata}
use mechagnome.Sessions.Annotations.{
  normalize_metadata, Change, Edit, changed_fields, fits_revision, apply_changes, update_connection,
}
use mechagnome.Sessions.Annotations.Revisions.{update-revision, update_ne}
use mechagnome.Examples.Writes.{state_of, value_of}

abbrev base : Db
base = record blank {
  sessions = root_session "s1" "/work" "conversation" ∷ root_session "s2" "/work" "generic" ∷ [];
}

abbrev edit_of : Edit
edit_of = record { session_id = "s1"; actor_session_id = "s1"; actor_call_id = none }

abbrev changes : List Change
changes =
    record { field = "title"; value = some "Sums" }
    ∷ record { field = "description"; value = none }
    ∷ []

abbrev result : Result (Metadata × Db)
result = update_connection edit_of changes (some 0) base

abbrev renamed : Db
renamed = state_of result

abbrev shown : Metadata
shown =
    value_of (record { row = root_session "s1" "/work" "conversation"; root_session_id = "" })
      result

renamed_ok : update_connection edit_of changes (some 0) base ≡ ok (shown, renamed)
unfolding update_connection apply_changes root_session_id root_from session_metadata find where_rows
    update_rows max_of append_event_connection insert_event last_seq
renamed_ok = refl

changes_fit : normalize_metadata changes ≡ ok changes
unfolding normalize_metadata
changes_fit = refl

update-revision_example :
    ((root : String) × (root_session_id base "s1" ≡ ok root)
      × (root_session_id base "s1" ≡ ok root))
    × ((row : Session) × (find (session_with_id "s1") base.sessions ≡ some row)
        × (fits_revision (some 0) row.annotation_revision ≡ true)
        × ((now : Session) × (find (session_with_id "s1") renamed.sessions ≡ some now)
            × (now.title ≡ some "Sums")
            × (now.description ≡ none)
            × (now.annotation_revision
                ≡ row.annotation_revision + length (changed_fields row changes))))
update-revision_example =
    update-revision edit_of changes (some 0) base shown renamed refl changes_fit renamed_ok

update_ne_example :
    find (session_with_id "s2") renamed.sessions ≡ find (session_with_id "s2") base.sessions
update_ne_example = update_ne edit_of changes (some 0) base shown renamed "s2" refl renamed_ok
