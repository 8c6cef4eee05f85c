-- ===== src/Invoke/Call.antt =====
-- src/mechagnome/kernel.py, `_invoke_async` and `call_async`. The requests of one tool follow one another:
-- calls that a tool starts at the same time are not in the model.
use mechagnome.Base.{
  ℕ, zero, suc, String, Option, none, some, List, [], ◌∷◌, ltb, leb, if◌then◌else◌,
}
use mechagnome.Outcome.{
  Error, Result, ok, err, ◌>>=◌, some_or, then_run, not_json, invalid_input, max_depth, max_calls,
  diverges, missing_main, is_toolbox_error, is_cancelled,
}
use mechagnome.Schema.{Db}
use mechagnome.Schema.Host.{Json, Items, Fields, Kernel, is_core}
use mechagnome.Events.{Refs, no_refs, append_event}
use mechagnome.Sessions.Create.{Fresh, Scope, create_session}
use mechagnome.Sessions.Selection.{snapshot_scope, resolve_scope}
use mechagnome.Tools.Validate.{is_object}
use mechagnome.Tools.Resolve.{ResolvedTool, resolve_in}
use mechagnome.Invoke.Program.{Program, Loaded, Runtime, Invocation, Context}
use mechagnome.Invoke.Capability.{Invoker, run_program}

-- `compile`, `exec` and the look at `main`; an exception is raised inside the `try`.
unfoldable pub program_of : Loaded → Json → Program
program_of (Loaded.broken e) args = Program.raise e
program_of Loaded.no_main args = Program.raise missing_main
program_of (Loaded.main body) args = body args

-- The arguments of each event of a call.
abbrev pub call_refs : ResolvedTool → String → Option String → Refs
call_refs tool call_id parent = record {
  call_id = some call_id;
  parent_call_id = parent;
  toolbox_id = some tool.toolbox_id;
  tool_name = some tool.name;
  tool_version = some tool.version;
  tool_version_id = some tool.id;
}

-- `tool.name if tool.name in CORE_NAMES else None`
unfoldable pub slot_of : String → Option String
slot_of name = if is_core name then some name else none

module _ (k : Kernel) (run : Runtime) (scope : Scope) where
  -- The checks of the arguments.
  unfoldable pub check_args : Json → Result (Unit {0})
  check_args args =
      if is_object args then (do _ ← some_or (k.dumps args) not_json; ok tt) else err invalid_input

  -- `_json(result)` inside the `try`
  unfoldable pub check_result : Result Json → Result Json
  check_result result = do value ← result; _ ← some_or (k.dumps value) not_json; ok value

  -- `details`
  unfoldable pub details_of : Error → Fields
  details_of e =
      if is_toolbox_error e
      then run.described e
      else Fields.field "code" (Json.text "tool_failed")
          (Fields.field "message" (Json.text (run.message e)) Fields.end)

  -- `self.append_event(state.session_id, ...)`
  abbrev pub log : (kind : String) → Fields → Refs → Invocation → Result ℕ × Invocation
  log kind fields refs s =
      let (result, db') =
        append_event scope.session_id kind (k.dumps (Json.object fields)) refs s.db in
      (result, record s { db = db' })

  -- The `except` and what follows it: the terminal event of call `n`.
  unfoldable pub settle : ℕ → Refs → Result Json → Invocation → Result Json × Invocation
  unfolding details_of append_event
  settle n refs (ok value) s =
      then_run
        (log "call_succeeded"
          (Fields.field "duration_ms" (Json.number (run.elapsed n))
            (Fields.field "result" value Fields.end))
          refs s)
        λ _ s'. (ok value, s')
  settle n refs (err e) s =
      if is_cancelled e
      then (err e, s)
      else then_run
          (log "call_failed"
            (Fields.field "duration_ms" (Json.number (run.elapsed n)) (details_of e)) refs s)
          λ _ s'. (err e, s')

  -- The call of a resolved tool.
  unfoldable pub run_tool :
      Invoker
      → (depth : ℕ) → (n : ℕ) → ResolvedTool
      → Json
      → (parent : Option String) → Invocation
      → Result Json × Invocation
  unfolding slot_of program_of check_result settle append_event
  run_tool invoker depth n tool args parent s =
      let refs = call_refs tool (run.call_id n) parent in
      let ctx : Context = record {
        call_id = run.call_id n;
        depth = depth;
        logical_slot = slot_of tool.name;
      } in
      then_run (log "call_started" (Fields.field "args" args Fields.end) refs s) λ _ s₁.
        let (result, s₂) =
          run_program k run scope invoker ctx (program_of (run.load tool.source) args) s₁ in
        settle n refs (check_result result) s₂

  -- `state.calls += 1` and `self._resolve`
  unfoldable pub begin :
      Invoker
      → (depth : ℕ) → (name : String) → Json
      → (parent : Option String) → Option ℕ
      → Invocation
      → Result Json × Invocation
  unfolding run_tool
  begin invoker depth name args parent version s =
      let s' = record s { calls = suc s.calls } in
      elim (resolve_in s.db name version scope.toolbox_ids) [
        | err e ↦ (err e, s')
        | ok tool ↦ run_tool invoker depth s.calls tool args parent s'
      ]

  -- `Kernel._invoke_async`. One unit of fuel pays for one level of calls.
  unfoldable pub invoke : (fuel depth : ℕ) → Invoker
  unfolding check_args begin
  invoke zero depth name args parent version s = (err diverges, s)
  invoke (suc fuel) depth name args parent version s = elim (check_args args) [
    | err e ↦ (err e, s)
    | ok _ ↦
        if ltb k.max_depth depth
        then (err max_depth, s)
        else if leb k.max_calls s.calls
        then (err max_calls, s)
        else begin (invoke fuel (suc depth)) depth name args parent version s
  ]

abbrev pub texts : List String → Items
texts [] = Items.nil
texts (t ∷ ts) = Items.cons (Json.text t) (texts ts)

module _ (k : Kernel) (run : Runtime) (fresh later : Fresh) where
  -- The scope of `call_async`.
  unfoldable pub scope_for_call : Option String → Option Scope → Db → Result Scope × Db
  scope_for_call none none db =
      then_run (create_session k fresh none "generic" db)
        λ identifier db₁. snapshot_scope k later identifier db₁
  scope_for_call session_id scope db = resolve_scope k fresh later session_id scope db

  -- `Kernel.call_async` without its model provider. The calls nest `max_depth + 1` deep, and one more
  -- unit of fuel pays for the refusal below them.
  unfoldable pub call_async :
      (name : String)
      → (args : Json) → (session_id : Option String) → (version : Option ℕ) → Option Scope
      → Db
      → Result Json × Db
  unfolding scope_for_call invoke append_event
  call_async name args session_id version scope db =
      then_run (scope_for_call session_id scope db) λ active db₁.
        let (result, s) =
          then_run
            (log k run active "invocation_scope"
              (Fields.field "toolbox_ids" (Json.array (texts active.toolbox_ids))
                (Fields.field "cwd" (Json.text active.cwd) Fields.end))
              no_refs (record { db = db₁; calls = 0; asked = 0 }))
            λ _ s₁. invoke k run active (suc (suc k.max_depth)) 0 name args none version s₁ in
        (result, s.db)
