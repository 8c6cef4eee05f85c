-- ===== src/Tools/Write.antt =====
-- src/mechagnome/kernel.py, `write_tool`, with `_normalize_namespaces`.
use mechagnome.Names.{is_tool_name}
use mechagnome.Names.Paths.{is_namespace_path, sort_texts}
use mechagnome.Sessions.Create.{Fresh, Scope}
use mechagnome.Sessions.Selection.{dedup, resolve_scope}
use mechagnome.Tools.Resolve.{
  ResolvedTool, resolve_in, find_version, find_binding, lineage_namespaces,
}
use mechagnome.Tools.Validate.{validate_tool}
use mechagnome.Base.{
  ℕ, ◌+◌, String, Bool, true, false, not, ◌&&◌, Option, none, some, List, [], ◌∷◌, ◌==◌, nat_eq,
  string_eq, if◌then◌else◌,
}
use mechagnome.Base.Rows.{find, where_rows, max_of}
use mechagnome.Outcome.{
  Result, ok, err, ◌>>=◌, ◌>>◌, require, is_unknown_tool, transaction, then_run, invalid_name,
  invalid_write, invalid_namespace, core_schema_pinned, unknown_tool, stale_base_version,
  index_error,
}
use mechagnome.Schema.{Version, Payload, Db, lineage_named, version_of}
use mechagnome.Schema.Insert.{
  insert_lineage, insert_version, put_binding, replace_namespaces, is_null,
}
use mechagnome.Schema.Host.{Json, Host, Kernel, is_core, core_schema}
use mechagnome.Events.{Refs, append_event_connection}
use mechagnome.Toolboxes.{toolbox_id}
use mechagnome.Sessions.Create.{Fresh, Scope}
use mechagnome.Sessions.Selection.{dedup, resolve_scope}

-- `description`, `input_schema` and `source`, which are given together or not at all.
pub record Draft : Type 0 where
  pub description : String
  pub input_schema : Json
  pub source : String

pub record WriteRequest : Type 0 where
  pub name : String
  pub description : Option String
  pub input_schema : Option Json
  pub source : Option String
  pub base_version : Option ℕ
  pub namespaces : Option (List String)
  pub session_id : Option String
  pub parent_call_id : Option String
  pub scope : Option Scope
  pub toolbox : Option String

pub record WriteResult : Type 0 where
  pub version : ℕ
  pub namespaces : List String
  pub metadata_only : Bool
  pub previous_version : Option ℕ

-- The three authoring values, and `invalid_write` where only some are given.
unfoldable pub draft_of : WriteRequest → Result (Option Draft)
draft_of r = elim r.description [
  | none ↦ if is_null r.input_schema && is_null r.source then ok none else err invalid_write
  | some d ↦ elim r.input_schema [
    | none ↦ err invalid_write
    | some i ↦ elim r.source [
      | none ↦ err invalid_write
      | some s ↦ ok (some (record { description = d; input_schema = i; source = s }))
    ]
  ]
]

abbrev pub all_paths : List String → Bool
all_paths [] = true
all_paths (p ∷ ps) = is_namespace_path p && all_paths ps

-- `Kernel._normalize_namespaces`: sorted, and without repetitions.
unfoldable pub normalize_namespaces : List String → Result (List String)
normalize_namespaces [] = err invalid_namespace
normalize_namespaces (p ∷ ps) = do
  require (all_paths (p ∷ ps)) invalid_namespace
  ok (sort_texts (dedup (p ∷ ps)))

abbrev pub normalize_optional : Option (List String) → Result (Option (List String))
normalize_optional none = ok none
normalize_optional (some ps) = do qs ← normalize_namespaces ps; ok (some qs)

-- A draft that passed the validation, with the text of its schema.
pub record Authored : Type 0 where
  pub description : String
  pub schema_json : String
  pub source : String

-- `name in CORE_SCHEMAS and input_schema != CORE_SCHEMAS[name]`
abbrev pub schema_fits : Host → Json → Option Json → Bool
schema_fits h schema none = true
schema_fits h schema (some pinned) = h.same_json schema pinned

-- The checks of `write_tool` before it opens a transaction.
unfoldable pub check_write : Host → WriteRequest → Result (Option Authored × Option (List String))
unfolding draft_of
check_write h r = do
  draft ← draft_of r
  require (not (is_null draft && is_null r.namespaces)) invalid_write
  namespaces ← normalize_optional r.namespaces
  authored ← elim draft [
    | none ↦ do require (is_tool_name r.name) invalid_name; ok none
    | some d ↦ do
      text ← validate_tool h r.name d.description d.input_schema d.source
      require (schema_fits h d.input_schema (core_schema h r.name)) core_schema_pinned
      ok (some (record { description = d.description; schema_json = text; source = d.source }))
  ]
  ok (authored, namespaces)

abbrev pub first_or : List String → Result String
first_or [] = err index_error
first_or (t ∷ ts) = ok t

-- `try: self._resolve(...) except`, with the first toolbox of the scope for a new tool.
abbrev pub fallback_target : Bool → List String → Result ResolvedTool → Result String
fallback_target full scope (ok tool) = ok tool.toolbox_id
fallback_target full scope (err e) = if is_unknown_tool e && full then first_or scope else err e

-- The toolbox that is written.
unfoldable pub target_of : Db → Bool → String → Option String → List String → Result String
target_of db full name (some toolbox) scope = toolbox_id db toolbox
target_of db full name none scope = fallback_target full scope (resolve_in db name none scope)

-- The lineage that is written, made if it is new.
unfoldable pub lineage_of : Db → Bool → (target name : String) → Result (ℕ × Db)
lineage_of db full target name = elim (find (lineage_named target name) db.lineages) [
  | some l ↦ ok (l.id, db)
  | none ↦ if full then insert_lineage db target name else err unknown_tool
]

-- The row of the query for the active version: JOIN bindings and tool_versions.
unfoldable pub active_version : Db → (target name : String) → Option Version
active_version db target name = elim (find_binding db target name) [
  | none ↦ none
  | some b ↦ find_version db b.tool_version_id
]

abbrev pub number_of : Option Version → Option ℕ
number_of none = none
number_of (some v) = some v.version

abbrev pub same_number : Option ℕ → ℕ → Bool
same_number none n = false
same_number (some m) n = m == n

-- `base_version is not None and active_version != base_version`
unfoldable pub check_base : Option ℕ → Option ℕ → Result (Unit {0})
check_base none active = ok tt
check_base (some base) active = require (same_number active base) (stale_base_version active base)

-- `COALESCE(MAX(version), 0) + 1`
unfoldable pub next_version : Db → ℕ → ℕ
next_version db lineage = max_of (λ v. v.version) (where_rows (version_of lineage) db.versions) + 1

abbrev pub default_namespace : String → String
default_namespace name = if is_core name then "core" else "uncategorized"

abbrev pub next_namespaces : String → List String → Option (List String) → List String
next_namespaces name previous (some ps) = ps
next_namespaces name [] none = default_namespace name ∷ []
next_namespaces name (p ∷ ps) none = p ∷ ps

abbrev pub tool_refs : Option String → (toolbox name : String) → (version : ℕ) → Option ℕ → Refs
tool_refs parent toolbox name version i = record {
  call_id = none;
  parent_call_id = parent;
  toolbox_id = some toolbox;
  tool_name = some name;
  tool_version = some version;
  tool_version_id = i;
}

-- An event of a write, if the call came with a session.
abbrev pub log_if : Option String → String → Payload → Refs → Db → Result Db
log_if none kind payload refs db = ok db
log_if (some session) kind payload refs db = do
  (_, db') ← append_event_connection session kind payload refs db
  ok db'

-- The version that the write activates, its row id, and the database after the activation.
pub record Activated : Type 0 where
  pub version : ℕ
  pub version_id : ℕ
  pub db : Db

-- The branch on `full_write`: a new version and its binding, or the active version as it is.
unfoldable pub activate :
    WriteRequest
    → Option Authored
    → (target : String) → (lineage : ℕ) → Option Version
    → Db
    → Result Activated
activate r (some a) target lineage active db = do
  let version = next_version db lineage
  (i, db₁) ← insert_version db lineage version a.description a.schema_json a.source
  db₂ ← put_binding db₁ target r.name i
  db₃ ←
      log_if r.session_id "binding_changed"
        (Payload.binding_changed r.name (number_of active) version target)
        (tool_refs r.parent_call_id target r.name version (some i)) db₂
  ok (record { version = version; version_id = i; db = db₃ })
activate r none target lineage none db = err unknown_tool
activate r none target lineage (some v) db =
    ok (record { version = v.version; version_id = v.id; db = db })

abbrev pub same_texts : List String → List String → Bool
same_texts [] [] = true
same_texts (a ∷ as') (b ∷ bs) = a == b && same_texts as' bs
same_texts _ _ = false

-- The transaction of `Kernel.write_tool`, after the scope is known.
unfoldable pub write_connection :
    WriteRequest
    → Option Authored
    → Option (List String)
    → List String
    → Db
    → Result (WriteResult × Db)
write_connection r authored namespaces scope db = do
  target ← target_of db (not (is_null authored)) r.name r.toolbox scope
  (lineage, db₁) ← lineage_of db (not (is_null authored)) target r.name
  let active = active_version db₁ target r.name
  require (not (is_null authored && is_null active)) unknown_tool
  check_base r.base_version (number_of active)
  let previous = lineage_namespaces db₁ lineage
  let next = next_namespaces r.name previous namespaces
  a ← activate r authored target lineage active db₁
  db₂ ← replace_namespaces a.db lineage next
  db₃ ←
      if same_texts previous next
      then ok db₂
      else log_if r.session_id "tool_namespaces_changed"
          (Payload.namespaces_changed r.name previous next target)
          (tool_refs r.parent_call_id target r.name a.version (some a.version_id)) db₂
  ok (
    record {
      version = a.version;
      namespaces = next;
      metadata_only = is_null authored;
      previous_version = number_of active;
    },
    db₃,
  )

-- `Kernel.write_tool`
unfoldable pub write_tool :
    Kernel → (fresh later : Fresh) → WriteRequest → Db → Result WriteResult × Db
unfolding check_write write_connection
write_tool k fresh later r db = elim (check_write k.host r) [
  | err e ↦ (err e, db)
  | ok (authored, namespaces) ↦
      then_run (resolve_scope k fresh later r.session_id r.scope db)
        λ scope db₁. transaction db₁ (write_connection r authored namespaces scope.toolbox_ids db₁)
]
