-- ===== src/Examples/Rollbacks.antt =====
-- A tool with two versions, rollbacks to its first, and its deletion.
use mechagnome.Base.{
  Bool, if◌then◌else◌, ◌&&◌, ◌==◌, String, ◌≡◌, refl, none, some, [], ◌∷◌, nat_eq, string_eq,
}
use mechagnome.Base.Rows.{find, where_rows, delete_rows, update_rows, max_of}
use mechagnome.Outcome.{ok}
use mechagnome.Schema.{lineage_named, version_numbered, Lineage, Version, Db}
use mechagnome.Schema.Insert.{
  put_binding, bind_rows, insert_lineage, insert_version, insert_event, insert_namespaces,
  replace_namespaces,
}
use mechagnome.Toolboxes.{toolbox_id}
use mechagnome.Tools.Resolve.{
  ResolvedTool, Joined, resolve_in, first_bound, bound_in, join_binding, wanted_version,
  first_lineage, lineage_for_history, lineage_namespaces,
}
use mechagnome.Schema.Host.{is_core}
use mechagnome.Names.Paths.{sort_texts}
use mechagnome.Events.{last_seq, append_event_connection}
use mechagnome.Tools.Write.{
  write_connection, target_of, lineage_of, active_version, check_base, activate, next_version,
}
use mechagnome.Tools.Delete.{
  Rollback, rollback_connection, rollback_place, delete_target, delete_binding_connection,
}
use mechagnome.Tools.Ownership.{IsWellFormed}
use mechagnome.Tools.Reads.{write-IsWellFormed}
use mechagnome.Tools.Leads.{Leads}
use mechagnome.Tools.Removed.{delete_binding-exact}
use mechagnome.Tools.RolledBack.{rollback-resolve, rollback_ne}
use mechagnome.Examples.Writes.{
  state_of, value_of, start, request, greeting, first_db, polite, second_outcome, second_db,
  outcome, no_result, start-IsWellFormed, first_ok, second_ok,
}

pub second_db-IsWellFormed : IsWellFormed second_db
second_db-IsWellFormed =
    write-IsWellFormed (request "greet") polite none ("t1" ∷ []) first_db
      (value_of no_result second_outcome) second_db
      (write-IsWellFormed (request "greet") greeting none ("t1" ∷ []) start
        (value_of no_result outcome) first_db start-IsWellFormed first_ok)
      second_ok

abbrev done : Rollback
done = record { from_version = some 2; to_version = 1 }

abbrev rolled_back : Db
rolled_back = state_of (rollback_connection "greet" 1 none ("t1" ∷ []) second_db)

rolled_back_ok : rollback_connection "greet" 1 none ("t1" ∷ []) second_db ≡ ok (done, rolled_back)
unfolding rollback_connection rollback_place lineage_for_history first_lineage find where_rows
    delete_rows update_rows max_of first_bound bound_in join_binding wanted_version resolve_in
    put_binding bind_rows toolbox_id write_connection target_of lineage_of insert_lineage
    active_version check_base lineage_namespaces activate insert_version next_version
    append_event_connection insert_event last_seq replace_namespaces insert_namespaces sort_texts
    is_core
rolled_back_ok = refl

rollback-resolve_example :
    (tool : ResolvedTool) × (resolve_in rolled_back "greet" none ("t1" ∷ []) ≡ ok tool)
    × (tool.version ≡ 1)
    × (done.to_version ≡ 1)
    × ((before : ResolvedTool) × (resolve_in second_db "greet" none ("t1" ∷ []) ≡ ok before)
        × ((box : String) × (toolbox_id second_db before.toolbox_name ≡ ok box)
            × ((l : Lineage) × (find (lineage_named box "greet") second_db.lineages ≡ some l)
                × ((v : Version) × (find (version_numbered l.id 1) second_db.versions ≡ some v)
                    × (tool.id ≡ v.id)
                    × (tool.source ≡ v.source)))))
rollback-resolve_example =
    rollback-resolve second_db "greet" 1 ("t1" ∷ []) done rolled_back second_db-IsWellFormed
      rolled_back_ok

rollback_ne_example :
    (first_bound rolled_back "help" ("t1" ∷ []) ≡ first_bound second_db "help" ("t1" ∷ []))
    × (rolled_back.versions ≡ second_db.versions)
rollback_ne_example =
    rollback_ne second_db "greet" 1 ("t1" ∷ []) done rolled_back "help" ("t1" ∷ []) refl
      rolled_back_ok

abbrev removed : Db
removed = state_of (delete_binding_connection "greet" (some "s1") none ("t1" ∷ []) second_db)

abbrev same_name : String → String → Bool
same_name a b = a == b

removed_ok :
    delete_binding_connection "greet" (some "s1") none ("t1" ∷ []) second_db ≡ ok (2, removed)
unfolding delete_binding_connection delete_target find where_rows delete_rows update_rows max_of
    first_bound bound_in join_binding wanted_version resolve_in put_binding bind_rows toolbox_id
    write_connection target_of lineage_of insert_lineage active_version check_base
    lineage_namespaces activate insert_version next_version append_event_connection insert_event
    last_seq replace_namespaces insert_namespaces sort_texts is_core
removed_ok = refl

delete_binding-exact_example :
    (target : String) × Leads second_db "greet" ("t1" ∷ []) target
    × ((j : Joined) × (bound_in second_db "greet" target ≡ some j))
    × (bound_in removed "greet" "t1" ≡ (
        if target == "t1" && same_name "greet" "greet"
        then none
        else bound_in second_db "greet" "t1"))
    × (removed.versions ≡ second_db.versions)
    × (removed.lineages ≡ second_db.lineages)
    × IsWellFormed removed
delete_binding-exact_example =
    delete_binding-exact "greet" (some "s1") ("t1" ∷ []) second_db 2 removed "t1" "greet"
      second_db-IsWellFormed removed_ok
