-- ===== src/Tools/Resolve.antt =====
-- src/mechagnome/kernel.py, `_ResolvedTool`, `_resolve`, `_effective_rows`, `_lineage_for_history` and the
-- namespaces of a lineage.
use mechagnome.Names.Paths.{sort_texts}
use mechagnome.Base.{
  ℕ, String, Option, none, some, List, [], ◌∷◌, map, ◌==◌, nat_eq, string_eq, if◌then◌else◌,
}
use mechagnome.Base.Rows.{find, where_rows, or_else}
use mechagnome.Outcome.{Result, ok, err, ◌>>=◌, some_or, is_unknown_tool, unknown_tool}
use mechagnome.Schema.{
  Toolbox, Lineage, Namespace, Version, Binding, Db, toolbox_with_id, lineage_with_id,
  lineage_named, version_with_id, version_numbered, binding_named,
}
use mechagnome.Toolboxes.{toolbox_id}

-- `_ResolvedTool`
pub record ResolvedTool : Type 0 where
  pub id : ℕ
  pub lineage_id : ℕ
  pub toolbox_id : String
  pub toolbox_name : String
  pub name : String
  pub version : ℕ
  pub description : String
  pub schema_json : String
  pub source : String

-- The joined row of the query for a binding.
pub record Joined : Type 0 where
  pub binding : Binding
  pub version : Version
  pub lineage : Lineage
  pub toolbox : Toolbox

abbrev pub find_lineage : Db → ℕ → Option Lineage
find_lineage db i = find (lineage_with_id i) db.lineages

abbrev pub find_version : Db → ℕ → Option Version
find_version db i = find (version_with_id i) db.versions

abbrev pub find_toolbox : Db → String → Option Toolbox
find_toolbox db i = find (toolbox_with_id i) db.toolboxes

abbrev pub find_binding : Db → String → String → Option Binding
find_binding db toolbox name = find (binding_named toolbox name) db.bindings

-- The joins of one binding with its active version, that version's lineage, and its toolbox.
unfoldable pub join_binding : Db → Binding → Option Joined
join_binding db b = elim (find_version db b.tool_version_id) [
  | none ↦ none
  | some v ↦ elim (find_lineage db v.lineage_id) [
    | none ↦ none
    | some l ↦ elim (find_toolbox db b.toolbox_id) [
      | none ↦ none
      | some t ↦ some (record { binding = b; version = v; lineage = l; toolbox = t })
    ]
  ]
]

-- The query of `Kernel._resolve` for one toolbox.
unfoldable pub bound_in : Db → String → String → Option Joined
unfolding join_binding
bound_in db name toolbox = elim (find_binding db toolbox name) [
  | none ↦ none
  | some b ↦ join_binding db b
]

-- The loop of `Kernel._resolve` over the candidates, with its `break`.
unfoldable pub first_bound : Db → String → List String → Option Joined
first_bound db name [] = none
first_bound db name (t ∷ ts) = or_else (bound_in db name t) (first_bound db name ts)

abbrev pub resolved : Joined → Version → ResolvedTool
resolved j v = record {
  id = v.id;
  lineage_id = j.lineage.id;
  toolbox_id = j.lineage.toolbox_id;
  toolbox_name = j.toolbox.name;
  name = j.binding.name;
  version = v.version;
  description = v.description;
  schema_json = v.schema_json;
  source = v.source;
}

-- The row of the wanted version, or of the active one.
unfoldable pub wanted_version : Db → Joined → Option ℕ → Option Version
wanted_version db j none = find_version db j.binding.tool_version_id
wanted_version db j (some n) = find (version_numbered j.lineage.id n) db.versions

-- `Kernel._resolve` over the candidates `toolboxes`: the scope's, or the one of `toolbox_id`.
unfoldable pub resolve_in : Db → String → Option ℕ → List String → Result ResolvedTool
resolve_in db name version toolboxes = do
  j ← some_or (first_bound db name toolboxes) unknown_tool
  v ← some_or (wanted_version db j version) unknown_tool
  ok (resolved j v)

-- The loop of `Kernel._lineage_for_history`.
unfoldable pub first_lineage : Db → String → List String → Option Lineage
first_lineage db name [] = none
first_lineage db name (t ∷ ts) =
    or_else (find (lineage_named t name) db.lineages) (first_lineage db name ts)

abbrev pub history_toolboxes : List String → Result ResolvedTool → Result (List String)
history_toolboxes scope (ok tool) = ok (tool.toolbox_id ∷ [])
history_toolboxes scope (err e) = if is_unknown_tool e then ok scope else err e

-- `Kernel._lineage_for_history`
unfoldable pub lineage_for_history : Db → String → List String → Option String → Result Lineage
lineage_for_history db name scope (some toolbox) = do
  t ← toolbox_id db toolbox
  some_or (first_lineage db name (t ∷ [])) unknown_tool
lineage_for_history db name scope none = do
  ts ← history_toolboxes scope (resolve_in db name none scope)
  some_or (first_lineage db name ts) unknown_tool

-- `Kernel._lineage_namespaces`, ORDER BY path
unfoldable pub lineage_namespaces : Db → ℕ → List String
lineage_namespaces db lineage =
    sort_texts
      (map (λ n. n.path) (where_rows (λ (n : Namespace). n.lineage_id == lineage) db.namespaces))
