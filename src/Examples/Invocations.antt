-- ===== src/Examples/Invocations.antt =====
-- A tool with one call within it, run in the session of the writes, and the catalog of that session.
use mechagnome.Base.{
  ◌≤◌, ◌+◌, ◌≤◌, ◌≡◌, refl, false, none, some, [], ◌∷◌, arith, nat_eq, string_eq, if◌then◌else◌,
  ◌==◌,
}
use mechagnome.Outcome.{Result, ok}
use mechagnome.Schema.Host.{Json, Fields, Host, Kernel}
use mechagnome.Sessions.Create.{Scope}
use mechagnome.Tools.Catalog.{effective_rows}
use mechagnome.Tools.Resolve.{resolve_in}
use mechagnome.Base.Rows.{find, where_rows, delete_rows, update_rows, max_of}
use mechagnome.Outcome.{some_or, unknown_tool}
use mathlib.Core.Option
use mechagnome.Tools.Catalog.Lookup.{count_named, named}
use mechagnome.Tools.Catalog.Effective.{as_tool, resolve_in-effective_rows}
use mechagnome.Invoke.Program.{Request, Program, Loaded, Runtime, Invocation}
use mechagnome.Invoke.Call.{
  invoke, check_args, begin, run_tool, program_of, check_result, settle, slot_of,
}
use mechagnome.Events.{append_event, append_event_connection, last_seq}
use mechagnome.Schema.Insert.{
  insert_lineage, insert_version, bind_rows, put_binding, insert_namespaces, replace_namespaces,
  insert_event,
}
use mechagnome.Schema.Host.{is_core}
use mechagnome.Toolboxes.{toolbox_id}
use mechagnome.Names.Paths.{sort_texts}
use mechagnome.Tools.Write.{
  target_of, lineage_of, active_version, check_base, next_version, activate, write_connection,
}
use mechagnome.Tools.Resolve.{
  join_binding, bound_in, first_bound, wanted_version, lineage_namespaces,
}
use mechagnome.Invoke.Capability.{run_program, answer, envelope}
use mechagnome.Invoke.Marks.{marks}
use mechagnome.Invoke.Trail.{Trail}
use mechagnome.Invoke.Calls.{invoke-Trail}
use mechagnome.Invoke.Bounds.{starts, ends, invoke-bounds}
use mechagnome.Invoke.Fuel.{invoke-fuel}
use mechagnome.Invoke.Success.{Returned, invoke-ok}
use mechagnome.Examples.Writes.{first_db, second_db}
use mechagnome.Examples.Rollbacks.{second_db-IsWellFormed}

abbrev host : Host
host = record {
  dumps = λ value. some "{}";
  same_json = λ a b. false;
  parse_mains = λ source. none;
  path_name = λ cwd. "work";
  digest = λ cwd. "0";
  shipped = λ name. record { description = ""; input_schema = Json.null; source = "" };
}

abbrev kernel : Kernel
kernel = record { cwd = "/work"; max_depth = 2; max_calls = 5; host = host }

-- The tool asks the dispatcher, which is not there, and then returns.
abbrev body : Json → Program
body args =
    Program.ask (Request.call_tool "greet" args none false)
      (λ reply. Program.finish (Json.text "hello"))

abbrev runtime : Runtime
runtime = record {
  load = λ source. Loaded.main body;
  described = λ e. Fields.end;
  message = λ e. "failed";
  numeral = λ n. "1";
  elapsed = λ n. "0.5";
  call_id = λ n. if n == 0 then "c0" else "c1";
  tool_run = λ n request. ok Json.null;
}

abbrev scope : Scope
scope = record { session_id = "s1"; toolbox_ids = "t1" ∷ []; cwd = "/work" }

abbrev no_args : Json
no_args = Json.object Fields.end

abbrev before : Invocation
before = record { db = first_db; calls = 0; asked = 0 }

abbrev ran : Result Json × Invocation
ran = invoke kernel runtime scope 4 0 "greet" no_args none none before

invoke-Trail_example : Trail 5 3 before ran.1
invoke-Trail_example = invoke-Trail kernel runtime scope 4 0 "greet" no_args none none before

invoke-bounds_example :
    (starts (marks ran.1.db.events) ≤ starts (marks first_db.events) + 5)
    × (ends (marks ran.1.db.events) + starts (marks first_db.events)
        ≤ starts (marks ran.1.db.events) + ends (marks first_db.events))
invoke-bounds_example = invoke-bounds kernel runtime scope 4 0 "greet" no_args none none before refl

invoke-fuel_example : invoke kernel runtime scope (4 + 3) 0 "greet" no_args none none before ≡ ran
invoke-fuel_example =
    invoke-fuel kernel runtime scope 4 3 0 "greet" no_args none none before (omega arith)
      (omega arith)

ran_ok : ran ≡ (ok (Json.text "hello"), ran.1)
unfolding invoke check_args begin run_tool program_of check_result settle append_event run_program
    answer slot_of envelope write_connection find where_rows delete_rows update_rows max_of
    target_of resolve_in first_bound bound_in join_binding wanted_version lineage_of insert_lineage
    active_version check_base lineage_namespaces activate insert_version next_version put_binding
    bind_rows append_event_connection insert_event last_seq replace_namespaces insert_namespaces
    toolbox_id sort_texts is_core
ran_ok = refl

invoke-ok_example : Returned kernel runtime scope before ran.1 (Json.text "hello")
invoke-ok_example =
    invoke-ok kernel runtime scope 4 0 "greet" no_args none none before (Json.text "hello") ran.1
      ran_ok

resolve_in-effective_rows_example :
    (resolve_in second_db "greet" none ("t1" ∷ [])
      ≡ some_or
          (Option.map as_tool (find (named "greet") (effective_rows second_db ("t1" ∷ []))))
          unknown_tool)
    × (count_named "greet" (effective_rows second_db ("t1" ∷ [])) ≤ 1)
resolve_in-effective_rows_example =
    resolve_in-effective_rows second_db "greet" ("t1" ∷ []) second_db-IsWellFormed
