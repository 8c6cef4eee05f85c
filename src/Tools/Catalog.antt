-- ===== src/Tools/Catalog.antt =====
-- src/mechagnome/kernel.py, `_effective_rows`, `catalog`, `list_tool_namespaces`, `view_tool` and
-- `tool_definitions`. Times of creation are left out.
pub mod Lookup
pub mod Effective
use Prim.Native.Char.{code}
use Prim.Native.Nat.{Ordering}
use Prim.Native.String.{compare, ◌++◌ as append}
use mechagnome.Base.{
  ℕ, zero, suc, ◌+◌, String, Bool, true, false, not, ◌&&◌, ◌||◌, Option, none, some, List, [], ◌∷◌,
  ◌++◌, map, ◌==◌, nat_eq, string_eq, if◌then◌else◌,
}
use mechagnome.Base.Rows.{find, where_rows, length}
use mechagnome.Outcome.{
  Result, ok, err, ◌>>=◌, ◌>>◌, require, some_or, then_run, invalid_namespace, unknown_tool,
}
use mechagnome.Schema.{Binding, Db}
use mechagnome.Schema.Insert.{null_or}
use mechagnome.Schema.Host.{Kernel, contains, is_core, core_names}
use mechagnome.Names.Paths.{is_namespace_path, sort_texts}
use mechagnome.Toolboxes.{toolbox_id}
use mechagnome.Sessions.Create.{Fresh, Scope, identifier_of}
use mechagnome.Sessions.Selection.{resolve_scope}
use mechagnome.Tools.Resolve.{
  ResolvedTool, find_version, find_toolbox, resolve_in, lineage_namespaces,
}

-- A row of `_effective_rows`.
pub record EffectiveRow : Type 0 where
  pub name : String
  pub tool_version_id : ℕ
  pub lineage_id : ℕ
  pub version : ℕ
  pub description : String
  pub schema_json : String
  pub source : String
  pub toolbox_id : String
  pub toolbox_name : String

-- The joins of one binding with its version and its toolbox.
unfoldable pub row_of : Db → Binding → Option EffectiveRow
row_of db b = elim (find_version db b.tool_version_id) [
  | none ↦ none
  | some v ↦ elim (find_toolbox db b.toolbox_id) [
    | none ↦ none
    | some t ↦ some (record {
      name = b.name;
      tool_version_id = v.id;
      lineage_id = v.lineage_id;
      version = v.version;
      description = v.description;
      schema_json = v.schema_json;
      source = v.source;
      toolbox_id = b.toolbox_id;
      toolbox_name = t.name;
    })
  ]
]

unfoldable pub joined_rows : Db → List Binding → List EffectiveRow
joined_rows db [] = []
joined_rows db (b ∷ bs) =
    let rest = joined_rows db bs in elim (row_of db b) [ none ↦ rest | some r ↦ r ∷ rest ]

-- ORDER BY name, and `sorted(rows, key=...)`: equal names keep their order.
unfoldable pub insert_by_name : EffectiveRow → List EffectiveRow → List EffectiveRow
insert_by_name r [] = r ∷ []
insert_by_name r (s ∷ ss) =
    let rest = insert_by_name r ss in
    elim (compare r.name s.name) [ Ordering.gt ↦ s ∷ rest | _ ↦ r ∷ s ∷ ss ]

unfoldable pub sort_by_name : List EffectiveRow → List EffectiveRow
unfolding insert_by_name
sort_by_name [] = []
sort_by_name (r ∷ rs) = insert_by_name r (sort_by_name rs)

abbrev pub in_toolbox : String → Binding → Bool
in_toolbox toolbox b = b.toolbox_id == toolbox

-- The query for one toolbox.
unfoldable pub candidates : Db → String → List EffectiveRow
unfolding joined_rows sort_by_name
candidates db toolbox = sort_by_name (joined_rows db (where_rows (in_toolbox toolbox) db.bindings))

-- The inner loop: the rows whose names were not seen, and the names seen after it.
unfoldable pub take_unseen : List String → List EffectiveRow → List EffectiveRow × List String
take_unseen seen [] = ([], seen)
take_unseen seen (r ∷ rs) = elim (contains seen r.name) [
  | true ↦ take_unseen seen rs
  | false ↦ let (taken, seen') = take_unseen (r.name ∷ seen) rs in (r ∷ taken, seen')
]

-- The outer loop.
unfoldable pub unseen_rows : Db → List String → List String → List EffectiveRow
unfolding take_unseen candidates
unseen_rows db seen [] = []
unseen_rows db seen (t ∷ ts) =
    let (taken, seen') = take_unseen seen (candidates db t) in taken ++ unseen_rows db seen' ts

-- `Kernel._effective_rows`
unfoldable pub effective_rows : Db → List String → List EffectiveRow
unfolding unseen_rows sort_by_name
effective_rows db toolboxes = sort_by_name (unseen_rows db [] toolboxes)

pub record CatalogEntry : Type 0 where
  pub row : EffectiveRow
  pub core : Bool
  pub namespaces : List String

-- `path.startswith(prefix)`
unfoldable pub starts_with : (prefix path : String) → Bool
starts_with String.[] path = true
starts_with (String.◌∷◌ c p) String.[] = false
starts_with (String.◌∷◌ c p) (String.◌∷◌ d q) = code c == code d && starts_with p q

-- `path == namespace or path.startswith(f"{namespace}/")`
unfoldable pub is_under : (namespace path : String) → Bool
unfolding starts_with
is_under namespace path = path == namespace || starts_with (append namespace "/") path

abbrev pub any_under : Option String → List String → Bool
any_under none paths = true
any_under (some n) [] = false
any_under (some n) (p ∷ ps) = is_under n p || any_under (some n) ps

-- The loop of `catalog`.
unfoldable pub entries :
    Db → (include_core : Bool) → Option String → List EffectiveRow → List CatalogEntry
unfolding is_under
entries db include_core namespace [] = []
entries db include_core namespace (r ∷ rs) =
    let rest = entries db include_core namespace rs in
    let paths = lineage_namespaces db r.lineage_id in
    if not include_core && is_core r.name || not (any_under namespace paths)
    then rest
    else record { row = r; core = is_core r.name; namespaces = paths } ∷ rest

abbrev pub check_namespace : Option String → Result (Unit {0})
check_namespace namespace = require (null_or is_namespace_path namespace) invalid_namespace

-- `Kernel.catalog`, in the scope's toolboxes
unfoldable pub catalog_in : Db → Bool → Option String → List String → List CatalogEntry
unfolding entries effective_rows
catalog_in db include_core namespace toolboxes =
    entries db include_core namespace (effective_rows db toolboxes)

-- The paths above an assigned path and the path itself: `"/".join(parts[:depth])` for each depth;
-- `before` is what stands in front of `rest`.
unfoldable pub ancestors_from : (before rest : String) → List String
ancestors_from before String.[] = before ∷ []
ancestors_from before (String.◌∷◌ c rest) =
    let deeper = ancestors_from (append before (String.◌∷◌ c String.[])) rest in
    if code c == b'/' then before ∷ deeper else deeper

abbrev pub ancestors : String → List String
ancestors path = ancestors_from "" path

-- The names of the tools below one path.
pub record Membership : Type 0 where
  pub path : String
  pub names : List String

-- `memberships.setdefault(path, set()).add(name)`, with the paths kept in order
unfoldable pub add_member : (path name : String) → List Membership → List Membership
add_member path name [] = record { path = path; names = name ∷ [] } ∷ []
add_member path name (m ∷ ms) =
    let rest = add_member path name ms in
    elim (compare path m.path) [
      | Ordering.eq ↦
          (if contains m.names name then m else record m { names = name ∷ m.names }) ∷ ms
      | Ordering.lt ↦ record { path = path; names = name ∷ [] } ∷ m ∷ ms
      | Ordering.gt ↦ m ∷ rest
    ]

abbrev pub passes : Option String → String → Bool
passes none path = true
passes (some n) path = is_under n path

unfoldable pub add_paths :
    Option String → (name : String) → List String → List Membership → List Membership
unfolding add_member is_under
add_paths namespace name [] ms = ms
add_paths namespace name (p ∷ ps) ms =
    add_paths namespace name ps (if passes namespace p then add_member p name ms else ms)

-- The loop over the assigned paths of one tool.
unfoldable pub add_assigned :
    Option String → (name : String) → List String → List Membership → List Membership
unfolding add_paths ancestors_from
add_assigned namespace name [] ms = ms
add_assigned namespace name (p ∷ ps) ms =
    add_assigned namespace name ps
      (if passes namespace p then add_paths namespace name (ancestors p) ms else ms)

unfoldable pub memberships : Option String → List CatalogEntry → List Membership → List Membership
unfolding add_assigned
memberships namespace [] ms = ms
memberships namespace (e ∷ es) ms =
    memberships namespace es (add_assigned namespace e.row.name e.namespaces ms)

abbrev pub count_of : Membership → String × ℕ
count_of m = (m.path, length m.names)

-- `Kernel.list_tool_namespaces`, in the scope's toolboxes: the paths with their counts
unfoldable pub namespaces_in : Db → Option String → List String → List (String × ℕ)
unfolding memberships catalog_in
namespaces_in db namespace toolboxes =
    map count_of (memberships namespace (catalog_in db true none toolboxes) [])

pub record ToolView : Type 0 where
  pub tool : ResolvedTool
  pub active : Bool
  pub core : Bool
  pub namespaces : List String

-- The toolboxes that `view_tool` searches.
abbrev pub view_toolboxes : Db → Option String → List String → Result (List String)
view_toolboxes db toolbox scope =
    if null_or (λ t. t == "") toolbox
    then ok scope
    else (do t ← toolbox_id db (identifier_of toolbox ""); ok (t ∷ []))

-- `Kernel.view_tool`, after the scope is known
unfoldable pub view_connection :
    String → Option ℕ → (toolbox : Option String) → List String → Db → Result ToolView
view_connection name version toolbox scope db = do
  ts ← view_toolboxes db toolbox scope
  tool ← resolve_in db name version ts
  active ← resolve_in db name none (tool.toolbox_id ∷ [])
  ok (record {
    tool = tool;
    active = active.version == tool.version;
    core = is_core name;
    namespaces = lineage_namespaces db tool.lineage_id;
  })

-- `Kernel.tool_definitions`: the names and descriptions, in the scope's toolboxes
unfoldable pub definitions_in :
    Db → (names : List String) → List String → Result (List (String × String))
definitions_in db [] toolboxes = ok []
definitions_in db (n ∷ ns) toolboxes = do
  tool ← resolve_in db n none toolboxes
  rest ← definitions_in db ns toolboxes
  ok ((n, tool.description) ∷ rest)

module _ (k : Kernel) (fresh later : Fresh) (session_id : Option String)
    (scope : Option Scope) where
  -- `Kernel.catalog`
  unfoldable pub catalog :
      (include_core : Bool) → (namespace : Option String) → Db → Result (List CatalogEntry) × Db
  unfolding catalog_in
  catalog include_core namespace db =
      then_run (check_namespace namespace, db)
        λ _ db₁.
          then_run (resolve_scope k fresh later session_id scope db₁)
            λ s db₂. (ok (catalog_in db₂ include_core namespace s.toolbox_ids), db₂)

  -- `Kernel.list_tool_namespaces`
  unfoldable pub list_tool_namespaces :
      (namespace : Option String) → Db → Result (List (String × ℕ)) × Db
  unfolding namespaces_in
  list_tool_namespaces namespace db =
      then_run (check_namespace namespace, db)
        λ _ db₁.
          then_run (resolve_scope k fresh later session_id scope db₁)
            λ s db₂. (ok (namespaces_in db₂ namespace s.toolbox_ids), db₂)

  -- `Kernel.view_tool`
  unfoldable pub view_tool :
      String → Option ℕ → (toolbox : Option String) → Db → Result ToolView × Db
  unfolding view_connection
  view_tool name version toolbox db =
      then_run (resolve_scope k fresh later session_id scope db)
        λ s db₁. (view_connection name version toolbox s.toolbox_ids db₁, db₁)

  -- `Kernel.tool_definitions`
  unfoldable pub tool_definitions : Db → Result (List (String × String)) × Db
  unfolding definitions_in
  tool_definitions db =
      then_run (resolve_scope k fresh later session_id scope db)
        λ s db₁. (definitions_in db₁ core_names s.toolbox_ids, db₁)
