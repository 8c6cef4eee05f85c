-- ===== src/Examples/Writes.antt =====
-- A toolbox with no tools, a session, and two writes of one tool.
use mechagnome.Base.{String, ◌≡◌, refl, false, none, some, [], ◌∷◌, arith, nat_eq, string_eq}
use mechagnome.Base.Rows.{find, where_rows, delete_rows, update_rows, max_of}
use mechagnome.Outcome.{Result, ok, err}
use mechagnome.Schema.{Db, blank}
use mechagnome.Schema.Insert.{
  insert_lineage, insert_version, bind_rows, put_binding, insert_namespaces, replace_namespaces,
  insert_event,
}
use mechagnome.Schema.Host.{Json, Fields, is_core}
use mechagnome.Events.{last_seq, append_event_connection}
use mechagnome.Toolboxes.{toolbox_id}
use mechagnome.Sessions.Create.{root_session}
use mechagnome.Tools.Resolve.{
  ResolvedTool, find_version, join_binding, bound_in, first_bound, wanted_version, resolve_in,
  lineage_namespaces,
}
use mechagnome.Names.Paths.{sort_texts}
use mechagnome.Tools.Write.{
  WriteRequest, WriteResult, Authored, target_of, lineage_of, active_version, check_base,
  next_version, activate, write_connection,
}
use mechagnome.Tools.Ownership.{IsWellFormed}
use mechagnome.Tools.Reads.{write-resolve, write-IsWellFormed, write-resolve_ne, write-immutable}

abbrev pub state_of : {A : Type 0} → Result (A × Db) → Db
state_of (ok (a, db)) = db
state_of (err e) = blank

abbrev pub value_of : {A : Type 0} → A → Result (A × Db) → A
value_of d (ok (a, db)) = a
value_of d (err e) = d

abbrev pub start : Db
start = record blank {
  toolboxes = record { id = "t1"; name = "main" } ∷ [];
  sessions = root_session "s1" "/work" "generic" ∷ [];
}

pub start-IsWellFormed : IsWellFormed start
unfolding find
start-IsWellFormed = record {
  owned = λ toolbox name b h. absurd (ground arith);
  lineage_keys = λ toolbox name l h. absurd (ground arith);
  version_keys = λ lineage n v h. absurd (ground arith);
}

abbrev pub request : String → WriteRequest
request name = record {
  name = name;
  description = some "greets";
  input_schema = some (Json.object Fields.end);
  source = some "main";
  base_version = none;
  namespaces = none;
  session_id = some "s1";
  parent_call_id = none;
  scope = none;
  toolbox = none;
}

abbrev pub greeting : Authored
greeting = record { description = "greets"; schema_json = "{}"; source = "main" }

program : Unit {0}
unfolding write_connection find where_rows delete_rows update_rows max_of target_of resolve_in
    first_bound bound_in join_binding wanted_version lineage_of insert_lineage active_version
    check_base lineage_namespaces activate insert_version next_version put_binding bind_rows
    append_event_connection insert_event last_seq replace_namespaces insert_namespaces toolbox_id
    sort_texts is_core
program = tt

abbrev pub no_result : WriteResult
no_result = record { version = 0; namespaces = []; metadata_only = false; previous_version = none }

abbrev pub outcome : Result (WriteResult × Db)
outcome = write_connection (request "greet") (some greeting) none ("t1" ∷ []) start

abbrev pub first_db : Db
first_db = state_of outcome

pub first_ok : outcome ≡ ok (value_of no_result outcome, first_db)
unfolding program
first_ok = refl

first_version : (value_of no_result outcome).version ≡ 1
unfolding program
first_version = refl

write-resolve_example :
    (tool : ResolvedTool) × (resolve_in first_db "greet" none ("t1" ∷ []) ≡ ok tool)
    × (tool.version ≡ (value_of no_result outcome).version)
    × (tool.description ≡ "greets")
    × (tool.schema_json ≡ "{}")
    × (tool.source ≡ "main")
write-resolve_example =
    write-resolve (request "greet") greeting none ("t1" ∷ []) start (value_of no_result outcome)
      first_db start-IsWellFormed refl first_ok

write-IsWellFormed_example : IsWellFormed first_db
write-IsWellFormed_example =
    write-IsWellFormed (request "greet") greeting none ("t1" ∷ []) start
      (value_of no_result outcome) first_db start-IsWellFormed first_ok

write-resolve_ne_example :
    first_bound first_db "help" ("t1" ∷ []) ≡ first_bound start "help" ("t1" ∷ [])
write-resolve_ne_example =
    write-resolve_ne (request "greet") greeting none ("t1" ∷ []) start (value_of no_result outcome)
      first_db "help" ("t1" ∷ []) start-IsWellFormed refl first_ok

-- The second write of the same tool.
abbrev pub polite : Authored
polite = record { description = "greets politely"; schema_json = "{}"; source = "main, sir" }

abbrev pub second_outcome : Result (WriteResult × Db)
second_outcome = write_connection (request "greet") (some polite) none ("t1" ∷ []) first_db

abbrev pub second_db : Db
second_db = state_of second_outcome

pub second_ok : second_outcome ≡ ok (value_of no_result second_outcome, second_db)
unfolding program
second_ok = refl

second_version : (value_of no_result second_outcome).version ≡ 2
unfolding program
second_version = refl

first_row :
    find_version first_db 1
    ≡ some (record {
      id = 1;
      lineage_id = 1;
      version = 1;
      description = "greets";
      schema_json = "{}";
      source = "main";
    })
unfolding program
first_row = refl

write-immutable_example :
    find_version second_db 1
    ≡ some (record {
      id = 1;
      lineage_id = 1;
      version = 1;
      description = "greets";
      schema_json = "{}";
      source = "main";
    })
write-immutable_example =
    write-immutable (request "greet") polite none ("t1" ∷ []) first_db
      (value_of no_result second_outcome) second_db 1
      (record {
        id = 1;
        lineage_id = 1;
        version = 1;
        description = "greets";
        schema_json = "{}";
        source = "main";
      })
      (write-IsWellFormed (request "greet") greeting none ("t1" ∷ []) start
        (value_of no_result outcome) first_db start-IsWellFormed first_ok)
      second_ok first_row
