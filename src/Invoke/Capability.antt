-- ===== src/Invoke/Capability.antt =====
-- src/mechagnome/kernel.py, `ToolContext.kernel`, `ToolContext.call_tool` and the methods of
-- `_KernelCapability`.
use mechagnome.Base.{
  ℕ, suc, String, Bool, true, false, Option, none, some, List, [], ◌∷◌, ◌==◌, string_eq,
}
use mechagnome.Sessions.Annotations.{update_session_metadata}
use mechagnome.Outcome.{Result, ok, err, ◌>>=◌, capability_denied}
use mechagnome.Schema.{Db}
use mechagnome.Schema.Host.{Json, Fields, Kernel}
use mechagnome.Sessions.Create.{Fresh, Scope}
use mechagnome.Sessions.Lineage.{Metadata, nearest_conversation_session}
use mechagnome.Invoke.Program.{Request, Reply, Program, Runtime, Invocation, Context}
use mechagnome.Tools.Catalog.{catalog, list_tool_namespaces, view_tool}
use mechagnome.Tools.Write.{WriteRequest, write_tool}
use mechagnome.Tools.Delete.{delete_tool}

-- `_invoke_async` one level below the context, with the parent's call id.
abbrev pub Invoker : Type 0
Invoker =
    (name : String)
    → (args : Json) → (parent : Option String) → (version : Option ℕ) → Invocation
    → Result Json × Invocation

-- The session of a scope is known: no uuid is drawn.
abbrev pub no_fresh : Fresh
no_fresh = record { session = ""; toolbox = "" }

-- `ToolContext.kernel` and `_KernelCapability._require`
unfoldable pub granted : Option String → (slot : String) → Bool
granted none slot = false
granted (some own) slot = own == slot

-- A method of the kernel that a capability calls.
abbrev pub on_db :
    {A : Type 0} → (A → Reply) → (Db → Result A × Db) → Invocation → Result Reply × Invocation
on_db reply f s =
    let (result, db') = f s.db in ((do a ← result; ok (reply a)), record s { db = db' })

abbrev pub with_version : Runtime → Option ℕ → Fields → Fields
with_version run none fields = fields
with_version run (some n) fields = Fields.field "version" (Json.number (run.numeral n)) fields

abbrev pub with_detach : Bool → Fields → Fields
with_detach false fields = fields
with_detach true fields = Fields.field "detach" (Json.boolean true) fields

-- The arguments of the dispatcher.
unfoldable pub envelope : Runtime → String → Json → Option ℕ → Bool → Json
envelope run name args version detach = Json.object (
    Fields.field "name" (Json.text name)
      (Fields.field "args" args (with_version run version (with_detach detach Fields.end))))

abbrev pub start_request : Runtime → String → Json → Option ℕ → Json
start_request run name args version = Json.object (
    Fields.field "operation" (Json.text "start") (
      Fields.field "name" (Json.text name)
        (Fields.field "args" args (with_version run version Fields.end))))

abbrev pub run_request : (operation run_id : String) → Json
run_request operation run_id = Json.object (
    Fields.field "operation" (Json.text operation)
      (Fields.field "run_id" (Json.text run_id) Fields.end))

abbrev pub value_reply : Result Json × Invocation → Result Reply × Invocation
value_reply (result, s) = ((do v ← result; ok (Reply.value v)), s)

-- `model_provider.tool_run`
abbrev pub supervise : Runtime → Json → Invocation → Result Reply × Invocation
supervise run request s =
    value_reply (run.tool_run s.asked request, record s { asked = suc s.asked })

abbrev pub guarded :
    Context
    → (slot : String) → (Invocation → Result Reply × Invocation)
    → Invocation
    → Result Reply × Invocation
guarded ctx slot act s = elim (granted ctx.logical_slot slot) [
  | true ↦ act s
  | false ↦ (err capability_denied, s)
]

module _ (k : Kernel) (run : Runtime) (scope : Scope) where
  -- The request of `_KernelCapability.write_tool`.
  abbrev pub write_request :
      Context
      → (name : String) → (description : Option String) → (input_schema : Option Json)
      → (source : Option String) → (base_version : Option ℕ) → Option (List String)
      → WriteRequest
  write_request ctx name description input_schema source base_version namespaces = record {
    name = name;
    description = description;
    input_schema = input_schema;
    source = source;
    base_version = base_version;
    namespaces = namespaces;
    session_id = some scope.session_id;
    parent_call_id = some ctx.call_id;
    scope = some scope;
    toolbox = none;
  }

  -- `SessionAccess.set_title`, `SessionAccess.set_description` and `Kernel._set_session_annotation`
  unfoldable pub annotate :
      Context
      → (field : String) → (value : Option String) → (session_id : Option String)
      → (expected_revision : Option ℕ) → Db
      → Result Metadata × Db
  annotate ctx field value session_id expected_revision =
      update_session_metadata
        (record {
          session_id = elim session_id [ none ↦ scope.session_id | some i ↦ i ];
          actor_session_id = scope.session_id;
          actor_call_id = some ctx.call_id;
        })
        (record { field = field; value = value } ∷ []) expected_revision

  unfoldable pub answer : Invoker → Context → Request → Invocation → Result Reply × Invocation
  unfolding granted envelope catalog list_tool_namespaces view_tool write_tool delete_tool
      nearest_conversation_session annotate
  answer invoker ctx (Request.call_tool name args version detach) s =
      value_reply
        (invoker "call_tool" (envelope run name args version detach) (some ctx.call_id) none s)
  answer invoker ctx (Request.execute name args version) s =
      guarded ctx "call_tool" (λ s'. value_reply (invoker name args (some ctx.call_id) version s'))
        s
  answer invoker ctx (Request.catalog include_core namespace) s =
      guarded ctx "search_tools"
        (on_db Reply.rows (catalog k no_fresh no_fresh none (some scope) include_core namespace)) s
  answer invoker ctx (Request.list_tools namespace) s =
      guarded ctx "list_tools"
        (on_db Reply.rows (catalog k no_fresh no_fresh none (some scope) true namespace)) s
  answer invoker ctx (Request.list_tool_namespaces namespace) s =
      guarded ctx "list_tool_namespaces"
        (on_db Reply.counts (list_tool_namespaces k no_fresh no_fresh none (some scope) namespace))
        s
  answer invoker ctx (Request.view_tool name version) s =
      guarded ctx "view_tool"
        (on_db Reply.view (view_tool k no_fresh no_fresh none (some scope) name version none)) s
  answer invoker ctx (Request.write_tool name description input_schema source base namespaces) s =
      guarded ctx "write_tool"
        (on_db Reply.written (
          write_tool k no_fresh no_fresh
            (write_request ctx name description input_schema source base namespaces)))
        s
  answer invoker ctx (Request.delete_tool name version) s =
      guarded ctx "delete_tool"
        (on_db Reply.removed
          (delete_tool k no_fresh no_fresh name version (some scope.session_id) (some scope) none))
        s
  answer invoker ctx (Request.start_tool_run name args version) s =
      guarded ctx "call_tool" (supervise run (start_request run name args version)) s
  answer invoker ctx (Request.get_tool_run run_id) s =
      guarded ctx "get_tool_run" (supervise run (run_request "get" run_id)) s
  answer invoker ctx (Request.cancel_tool_run run_id) s =
      guarded ctx "cancel_tool_run" (supervise run (run_request "cancel" run_id)) s
  answer invoker ctx Request.enclosing_conversation_session_id s =
      guarded ctx "run_agent"
        (on_db Reply.session (λ db. (nearest_conversation_session db scope.session_id, db))) s
  answer invoker ctx (Request.set_title value session_id expected) s =
      on_db Reply.metadata (annotate ctx "title" value session_id expected) s
  answer invoker ctx (Request.set_description value session_id expected) s =
      on_db Reply.metadata (annotate ctx "description" value session_id expected) s

  -- A program, up to its end.
  unfoldable pub run_program : Invoker → Context → Program → Invocation → Result Json × Invocation
  unfolding answer
  run_program invoker ctx (Program.finish result) s = (ok result, s)
  run_program invoker ctx (Program.raise e) s = (err e, s)
  run_program invoker ctx (Program.ask request next) s =
      let (reply, s') = answer invoker ctx request s in run_program invoker ctx (next reply) s'
