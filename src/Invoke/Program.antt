-- ===== src/Invoke/Program.antt =====
-- src/mechagnome/kernel.py, `ToolContext` and `_KernelCapability`: what the source of a tool does when it
-- runs, one request to its context after the other, and what it gets back. Calls that a tool makes at
-- the same time, as with `asyncio.gather`, and what it reads through `ctx.sessions` or asks of other
-- sessions and of `ctx.model_provider` are not among them. The code of a tool and the model provider are not under src/: `Runtime` stands
-- for them.
use mechagnome.Base.{ℕ, String, Bool, Option, List}
use mechagnome.Outcome.{Error, Result}
use mechagnome.Schema.{Db}
use mechagnome.Schema.Host.{Json, Fields}
use mechagnome.Sessions.Lineage.{Metadata}
use mechagnome.Tools.Write.{WriteResult}
use mechagnome.Tools.Delete.{Deleted}
use mechagnome.Tools.Catalog.{CatalogEntry, ToolView}

-- The calls of `ToolContext.call_tool`, of the methods of `_KernelCapability` but `wait_tool_run`, and of
-- the two methods of `SessionAccess` that write.
pub data Request : Type 0 where
  call_tool : (name : String) (args : Json) (version : Option ℕ) (detach : Bool) → Request
  catalog : (include_core : Bool) (namespace : Option String) → Request
  list_tools : (namespace : Option String) → Request
  list_tool_namespaces : (namespace : Option String) → Request
  view_tool : (name : String) (version : Option ℕ) → Request
  write_tool :
      (name : String) (description : Option String) (input_schema : Option Json)
      (source : Option String) (base_version : Option ℕ) (namespaces : Option (List String))
      → Request
  delete_tool : (name : String) (version : Option ℕ) → Request
  execute : (name : String) (args : Json) (version : Option ℕ) → Request
  start_tool_run : (name : String) (args : Json) (version : Option ℕ) → Request
  get_tool_run : (run_id : String) → Request
  cancel_tool_run : (run_id : String) → Request
  enclosing_conversation_session_id : Request
  set_title :
      (value : Option String) (session_id : Option String) (expected_revision : Option ℕ) → Request
  set_description :
      (value : Option String) (session_id : Option String) (expected_revision : Option ℕ) → Request

pub data Reply : Type 0 where
  value : Json → Reply
  rows : List CatalogEntry → Reply
  counts : List (String × ℕ) → Reply
  view : ToolView → Reply
  written : WriteResult → Reply
  removed : Deleted → Reply
  session : String → Reply
  metadata : Metadata → Reply

-- The body of a `main`: it returns, raises, or waits for a request and goes on.
pub data Program : Type 0 where
  finish : Json → Program
  raise : Error → Program
  ask : Request → (Result Reply → Program) → Program

-- What `compile` and `exec` of a source leave in the namespace: an exception, no callable `main`, or
-- one.
pub data Loaded : Type 0 where
  broken : Error → Loaded
  no_main : Loaded
  main : (Json → Program) → Loaded

pub record Runtime : Type 0 where
  pub load : (source : String) → Loaded
  -- `error.to_dict()["error"]` of a `ToolboxError`, and `str(error)`
  pub described : Error → Fields
  pub message : Error → String
  -- `str` of a number, and the milliseconds that the n-th call took
  pub numeral : ℕ → String
  pub elapsed : ℕ → String
  -- `uuid.uuid4().hex` of the n-th call
  pub call_id : ℕ → String
  -- `model_provider.tool_run`, at its n-th request
  pub tool_run : ℕ → Json → Result Json

-- `_InvocationState.calls`, the database, and the number of requests to `tool_run` so far.
pub record Invocation : Type 0 where
  pub db : Db
  pub calls : ℕ
  pub asked : ℕ

-- The fields of a `ToolContext`.
pub record Context : Type 0 where
  pub call_id : String
  pub depth : ℕ
  pub logical_slot : Option String
