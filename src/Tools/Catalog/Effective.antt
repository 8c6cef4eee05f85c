-- ===== src/Tools/Catalog/Effective.antt =====
-- The rows of the catalog are what names resolve to.
use mathlib.Core.Option
use mechagnome.Base.{
  ◌≤◌, String, ◌≡◌, refl, sym, ap, ◌∙◌, inl, inr, Option, none, some, List, [], ◌∷◌, arith, nat_eq,
  string_eq, eq_of_beq, Option-cases,
}
use mechagnome.Base.Rows.{find, or_else, find_sound}
use mechagnome.Outcome.{some_or, unknown_tool}
use mechagnome.Schema.{Binding, Db, binding_named, lineage_with_id}
use mechagnome.Tools.Resolve.{
  ResolvedTool, Joined, find_version, find_lineage, find_toolbox, find_binding, join_binding,
  bound_in, first_bound, wanted_version, resolve_in,
}
use mechagnome.Tools.Ownership.{IsWellFormed}
use mechagnome.Tools.Activation.{both-equal}
use mechagnome.Tools.Leads.{bound_in-version}
use mechagnome.Tools.Catalog.{EffectiveRow, row_of, effective_rows}
use mechagnome.Tools.Catalog.Lookup.{
  named, row_by, row_through, find-effective_rows, count_named, count-effective_rows,
}

-- A row as `_resolve` returns it.
abbrev pub as_tool : EffectiveRow → ResolvedTool
as_tool r = record {
  id = r.tool_version_id;
  lineage_id = r.lineage_id;
  toolbox_id = r.toolbox_id;
  toolbox_name = r.toolbox_name;
  name = r.name;
  version = r.version;
  description = r.description;
  schema_json = r.schema_json;
  source = r.source;
}

join_inv :
    (db : Db) (b : Binding) (j : Joined)
    → join_binding db b ≡ some j
    → (j.binding ≡ b)
      × (find_version db b.tool_version_id ≡ some j.version)
      × (find_lineage db j.version.lineage_id ≡ some j.lineage)
      × (find_toolbox db b.toolbox_id ≡ some j.toolbox)
unfolding join_binding
join_inv db b j h = (ground arith, ground arith, ground arith, ground arith)

abbrev row_from : Joined → EffectiveRow
row_from j = record {
  name = j.binding.name;
  tool_version_id = j.version.id;
  lineage_id = j.lineage.id;
  version = j.version.version;
  description = j.version.description;
  schema_json = j.version.schema_json;
  source = j.version.source;
  toolbox_id = j.lineage.toolbox_id;
  toolbox_name = j.toolbox.name;
}

-- The row of a binding and the join of `_resolve` read the same tool.
row_of-join_binding :
    (db : Db) (b : Binding) (j : Joined)
    → join_binding db b ≡ some j
    → j.lineage.toolbox_id ≡ b.toolbox_id
    → row_of db b ≡ some (row_from j)
unfolding row_of
row_of-join_binding db b j h owner =
    let (itself, version, lineage, toolbox) = join_inv db b j h in
    let key : j.lineage.id ≡ j.version.lineage_id =
      eq_of_beq j.lineage.id j.version.lineage_id
        (find_sound (lineage_with_id j.version.lineage_id) db.lineages j.lineage lineage) in
    ground (arith, version, toolbox, key, owner, ap (λ (b : Binding). b.name) itself)

map-or_else :
    {A B : Type 0} (f : A → B) (o p : Option A)
    → Option.map f (or_else o p) ≡ or_else (Option.map f o) (Option.map f p)
map-or_else f none p = refl
map-or_else f (some a) p = refl

module _ {db : Db} (w : IsWellFormed db) where
  row_by-bound_in :
      (name toolbox : String)
      → row_by db (find_binding db toolbox name) ≡ Option.map row_from (bound_in db name toolbox)
  unfolding bound_in
  row_by-bound_in name toolbox = elim (Option-cases (find_binding db toolbox name)) [
    | inl free ↦ ground (arith, free)
    | inr (b, found) ↦
        let (j, joined, owner, label) = w.owned toolbox name b found in
        let (here, _) =
          both-equal b.toolbox_id toolbox b.name name
            (find_sound (binding_named toolbox name) db.bindings b found) in
        ground (arith, found, joined, row_of-join_binding db b j joined (owner ∙ sym here))
  ]

  row_through-first_bound :
      (name : String) (ts : List String)
      → row_through w name ts ≡ Option.map row_from (first_bound db name ts)
  unfolding first_bound
  row_through-first_bound name [] = refl
  row_through-first_bound name (t ∷ ts) =
      rw (row_by-bound_in name t, row_through-first_bound name ts)
        (sym (map-or_else row_from (bound_in db name t) (first_bound db name ts)))

first_bound-version :
    (db : Db) (name : String) (ts : List String) (j : Joined)
    → first_bound db name ts ≡ some j
    → find_version db j.binding.tool_version_id ≡ some j.version
unfolding first_bound
first_bound-version db name [] j h = absurd (ground arith)
first_bound-version db name (t ∷ ts) j h = elim (Option-cases (bound_in db name t)) [
  | inl free ↦ first_bound-version db name ts j (rw free at h)
  | inr (k, bound) ↦
      let same : k ≡ j = ground arith in bound_in-version db name t j (rw same at bound)
]

-- The catalog refines the resolution of names: in a well-formed database, and in whatever order the
-- catalog lists its rows, the row of a name is the tool that `_resolve` finds in the same toolboxes,
-- field by field, a name without a row is the unknown tool, and no name has two rows, so that a tool
-- that an earlier toolbox shadows is not listed.
pub resolve_in-effective_rows :
    (db : Db) (name : String) (ts : List String)
    → IsWellFormed db
    → (resolve_in db name none ts
        ≡ some_or (Option.map as_tool (find (named name) (effective_rows db ts))) unknown_tool)
      × (count_named name (effective_rows db ts) ≤ 1)
unfolding resolve_in wanted_version
resolve_in-effective_rows db name ts w =
    let rows = find-effective_rows w name ts ∙ row_through-first_bound w name ts in
    (
      elim (Option-cases (first_bound db name ts)) [
        | inl free ↦ rw (rows, free, Option.map) refl
        | inr (j, bound) ↦ rw (rows, bound, first_bound-version db name ts j bound, Option.map) refl
      ],
      count-effective_rows db name ts,
    )
