-- ===== src/Schema/Host.antt =====
-- What the kernel takes from outside the repository, and the fields of a `Kernel` object.
use mechagnome.Base.{
  ℕ, String, Bool, false, ◌||◌, Option, none, some, List, [], ◌∷◌, ◌==◌, nat_eq, string_eq,
  if◌then◌else◌,
}

-- Values of `json`. A number is its text.
mutual
  pub data Json : Type 0 where
    null : Json
    boolean : Bool → Json
    number : String → Json
    text : String → Json
    array : Items → Json
    object : Fields → Json

  pub data Items : Type 0 where
    nil : Items
    cons : Json → Items → Items

  pub data Fields : Type 0 where
    end : Fields
    field : String → Json → Fields → Fields

-- A top-level `def main` or `async def main`, as `ast` shows it.
pub record MainDef : Type 0 where
  pub is_async : Bool
  pub positional : ℕ
  pub has_vararg : Bool

-- A code-shipped default of bootstrap.py: `BootstrapTool` without its name.
pub record BootstrapTool : Type 0 where
  pub description : String
  pub input_schema : Json
  pub source : String

pub record Host : Type 0 where
  -- `json.dumps(value, allow_nan=False, separators=(",", ":"), sort_keys=True)`; `none` if it raises
  pub dumps : Json → Option String
  -- `==` on Python dictionaries
  pub same_json : Json → Json → Bool
  -- `ast.parse` and `compile`: the definitions of `main` in order; `none` on a SyntaxError
  pub parse_mains : String → Option (List MainDef)
  -- `Path(cwd).name`, and the first 8 digits of `hashlib.sha256(cwd.encode()).hexdigest()`
  pub path_name : String → String
  pub digest : String → String
  -- the texts and schemas of `BOOTSTRAP_TOOLS`, by name
  pub shipped : String → BootstrapTool

pub record Kernel : Type 0 where
  pub cwd : String
  pub max_depth : ℕ
  pub max_calls : ℕ
  pub host : Host
  pub open host use *

-- bootstrap.py, `CORE_NAMES`
abbrev pub core_names : List String
core_names =
    "help" ∷ "list_tools" ∷ "list_tool_namespaces" ∷ "search_tools" ∷ "view_tool" ∷ "write_tool"
    ∷ "call_tool" ∷ "get_tool_run" ∷ "wait_tool_run" ∷ "cancel_tool_run" ∷ "delete_tool"
    ∷ "run_agent" ∷ []

abbrev pub contains : List String → String → Bool
contains [] a = false
contains (x ∷ xs) a = x == a || contains xs a

unfoldable pub is_core : String → Bool
is_core = contains core_names

-- `CORE_SCHEMAS.get(name)`
unfoldable pub core_schema : Host → String → Option Json
core_schema h name = if is_core name then some (h.shipped name).input_schema else none
