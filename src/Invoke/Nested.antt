-- ===== src/Invoke/Nested.antt =====
-- Every run of a tool leaves a trail.
use mechagnome.Base.{
  ℕ, String, refl, inl, inr, true, Option, none, some, nat_eq, string_eq, Bool-cases,
}
use mechagnome.Outcome.{Result}
use mechagnome.Schema.Host.{Json, Kernel}
use mechagnome.Sessions.Create.{Scope}
use mechagnome.Invoke.Program.{Request, Reply, Program, Runtime, Invocation, Context}
use mechagnome.Invoke.Capability.{
  annotate, supervise, on_db, value_reply, start_request, run_request, no_fresh, envelope, envelope,
  write_request, Invoker, answer, run_program, granted, guarded,
}
use mechagnome.Invoke.Kept.{
  annotate-Keeps, catalog-Keeps, list_tool_namespaces-Keeps, view_tool-Keeps, write_tool-Keeps,
  delete_tool-Keeps,
}
use mechagnome.Outcome.{Result}
use mechagnome.Schema.{Db}
use mechagnome.Sessions.Lineage.{nearest_conversation_session}
use mechagnome.Tools.Write.{write_tool}
use mechagnome.Tools.Delete.{delete_tool}
use mechagnome.Tools.Catalog.{catalog, list_tool_namespaces, view_tool}
use mechagnome.Invoke.Marks.{Keeps}
use mechagnome.Invoke.Trail.{Trail, Trail-quiet, Trail-trans}

module _ (k : Kernel) (run : Runtime) (scope : Scope) (h : ℕ) (invoker : Invoker)
    (ctx : Context) where
  abbrev pub Below : Type 0
  Below =
      (name : String) (args : Json) (parent : Option String) (version : Option ℕ) (s : Invocation)
      → Trail k.max_calls h s (invoker name args parent version s).1

  abbrev Asked : Request → Invocation → Type 0
  Asked r s = Trail k.max_calls h s (answer k run scope invoker ctx r s).1

  guarded-Trail :
      (slot : String) (act : Invocation → Result Reply × Invocation) (s : Invocation)
      → Trail k.max_calls h s (act s).1
      → Trail k.max_calls h s (guarded ctx slot act s).1
  guarded-Trail slot act s t = elim (Bool-cases (granted ctx.logical_slot slot)) [
    | inl held ↦ rw (guarded, held) t
    | inr refused ↦ rw (guarded, refused) (Trail-quiet k.max_calls h s s refl refl)
  ]

  on_db-Trail :
      {A : Type 0} (slot : String) (reply : A → Reply) (f : Db → Result A × Db) (s : Invocation)
      → Keeps s.db (f s.db).1
      → Trail k.max_calls h s (guarded ctx slot (on_db reply f) s).1
  on_db-Trail slot reply f s keeps =
      guarded-Trail slot (on_db reply f) s
        (Trail-quiet k.max_calls h s (on_db reply f s).1 keeps refl)

  supervise-Trail :
      (slot : String) (request : Json) (s : Invocation)
      → Trail k.max_calls h s (guarded ctx slot (supervise run request) s).1
  supervise-Trail slot request s =
      guarded-Trail slot (supervise run request) s
        (Trail-quiet k.max_calls h s (supervise run request s).1 refl refl)

  answer-Trail :
      Below
      → (r : Request) (s : Invocation)
      → Trail k.max_calls h s (answer k run scope invoker ctx r s).1
  unfolding answer
  answer-Trail below (Request.call_tool name args version detach) s =
      below "call_tool" (envelope run name args version detach) (some ctx.call_id) none s
  answer-Trail below (Request.execute name args version) s =
      guarded-Trail "call_tool"
        (λ s'. value_reply (invoker name args (some ctx.call_id) version s')) s
        (below name args (some ctx.call_id) version s)
  answer-Trail below (Request.catalog core namespace) s =
      on_db-Trail "search_tools" Reply.rows
        (catalog k no_fresh no_fresh none (some scope) core namespace) s
        (catalog-Keeps k scope s.db core namespace)
  answer-Trail below (Request.list_tools namespace) s =
      on_db-Trail "list_tools" Reply.rows
        (catalog k no_fresh no_fresh none (some scope) true namespace) s
        (catalog-Keeps k scope s.db true namespace)
  answer-Trail below (Request.list_tool_namespaces namespace) s =
      on_db-Trail "list_tool_namespaces" Reply.counts
        (list_tool_namespaces k no_fresh no_fresh none (some scope) namespace) s
        (list_tool_namespaces-Keeps k scope s.db namespace)
  answer-Trail below (Request.view_tool name version) s =
      on_db-Trail "view_tool" Reply.view
        (view_tool k no_fresh no_fresh none (some scope) name version none) s
        (view_tool-Keeps k scope s.db name version)
  answer-Trail below (Request.write_tool name description input_schema source base ns) s =
      let r = write_request k run scope ctx name description input_schema source base ns in
      on_db-Trail "write_tool" Reply.written (write_tool k no_fresh no_fresh r) s
        (write_tool-Keeps k scope s.db r)
  answer-Trail below (Request.delete_tool name version) s =
      on_db-Trail "delete_tool" Reply.removed
        (delete_tool k no_fresh no_fresh name version (some scope.session_id) (some scope) none) s
        (delete_tool-Keeps k scope s.db name version)
  answer-Trail below (Request.start_tool_run name args version) s =
      supervise-Trail "call_tool" (start_request run name args version) s
  answer-Trail below (Request.get_tool_run run_id) s =
      supervise-Trail "get_tool_run" (run_request "get" run_id) s
  answer-Trail below (Request.cancel_tool_run run_id) s =
      supervise-Trail "cancel_tool_run" (run_request "cancel" run_id) s
  answer-Trail below Request.enclosing_conversation_session_id s =
      on_db-Trail "run_agent" Reply.session
        (λ db. (nearest_conversation_session db scope.session_id, db)) s refl
  answer-Trail below (Request.set_title value session_id expected) s =
      Trail-quiet k.max_calls h s
        (on_db Reply.metadata (annotate k run scope ctx "title" value session_id expected) s).1
        (annotate-Keeps k run scope ctx "title" value session_id expected s.db) refl
  answer-Trail below (Request.set_description value session_id expected) s =
      Trail-quiet k.max_calls h s
        (on_db Reply.metadata (annotate k run scope ctx "description" value session_id expected)
          s).1
        (annotate-Keeps k run scope ctx "description" value session_id expected s.db) refl

  pub run_program-Trail :
      Below
      → (p : Program) (s : Invocation)
      → Trail k.max_calls h s (run_program k run scope invoker ctx p s).1
  unfolding run_program
  run_program-Trail below (Program.finish result) s = Trail-quiet k.max_calls h s s refl refl
  run_program-Trail below (Program.raise e) s = Trail-quiet k.max_calls h s s refl refl
  run_program-Trail below (Program.ask r next) s =
      let (reply, s') = answer k run scope invoker ctx r s in
      Trail-trans k.max_calls h (answer-Trail below r s) (run_program-Trail below (next reply) s')
