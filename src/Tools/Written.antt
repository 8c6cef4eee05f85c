-- ===== src/Tools/Written.antt =====
-- The database after `write_tool` has stored a version and bound it: what changed, and what did not.
use mechagnome.Base.{
  ℕ, String, ◌≡◌, refl, sym, ◌∙◌, inl, inr, false, ◌&&◌, some, [], ◌∷◌, ◌++◌, arith, ◌==◌, nat_eq,
  string_eq, beq_refl, Bool-cases, Option-cases,
}
use mechagnome.Base.Rows.{find, find-append}
use mechagnome.Schema.{Toolbox, Lineage, Version, Db, version_with_id, version_numbered}
use mechagnome.Schema.Insert.{bind_rows}
use mechagnome.Tools.Resolve.{
  Joined, find_lineage, find_version, find_toolbox, find_binding, join_binding, bound_in,
}
use mechagnome.Tools.Ownership.{IsWellFormed}
use mechagnome.Tools.Activation.{find-bind_rows, new_version, find-added, find-old, both-equal}
use mechagnome.Tools.Extension.{Extends, join-Extends, bound_in-Extends}

module _ (db : Db) (lineage n : ℕ) (target name description schema_json source : String) where
  abbrev pub row : Version
  row = new_version db lineage n description schema_json source

  abbrev pub written : Db
  written = record db {
    versions = db.versions ++ (row ∷ []);
    bindings = bind_rows target name row.id db.bindings;
  }

  pub written-Extends : Extends db written
  written-Extends = record {
    toolboxes = λ i t h. h;
    lineages = λ i l h. h;
    versions =
        λ i v h. find-old db lineage n description schema_json source (version_with_id i) v h;
  }

  written-keys :
      IsWellFormed db
      → (m k : ℕ) (v : Version) → find (version_numbered m k) written.versions ≡ some v
      → find_version written v.id ≡ some v
  unfolding find
  written-keys w m k v h = elim (Option-cases (find (version_numbered m k) db.versions)) [
    | inl free ↦
        let new : v ≡ row =
          ground (arith, find-append (version_numbered m k) db.versions (row ∷ [])) in
        rw new (find-added db lineage n description schema_json source)
    | inr (o, found) ↦
        let old : o ≡ v =
          ground (arith, find-append (version_numbered m k) db.versions (row ∷ [])) in
        written-Extends.versions v.id v (rw old at (w.version_keys m k o found))
  ]

  -- Another name, or the name in another toolbox, leads where it led.
  pub bound_in-written_ne :
      IsWellFormed db
      → (other toolbox : String) → (target == toolbox && name == other) ≡ false
      → bound_in written other toolbox ≡ bound_in db other toolbox
  bound_in-written_ne w other toolbox apart =
      bound_in-Extends w written-Extends other toolbox
        (find-bind_rows target name toolbox other row.id db.bindings ∙ rw apart refl)

  module _ (l : Lineage) (t : Toolbox) (hl : find_lineage db lineage ≡ some l)
      (ht : find_toolbox db target ≡ some t) where
    abbrev pub joined_row : Joined
    joined_row = record {
      binding = record { toolbox_id = target; name = name; tool_version_id = row.id };
      version = row;
      lineage = l;
      toolbox = t;
    }

    find_binding-written : find_binding written target name ≡ some joined_row.binding
    find_binding-written =
        find-bind_rows target name target name row.id db.bindings
        ∙ rw (beq_refl target, beq_refl name) refl

    join-written : join_binding written joined_row.binding ≡ some joined_row
    unfolding join_binding
    join-written = ground (arith, find-added db lineage n description schema_json source)

    -- The name leads to the new version.
    pub bound_in-written : bound_in written name target ≡ some joined_row
    unfolding bound_in
    bound_in-written = ground (arith, find_binding-written, join-written)

    pub written-IsWellFormed :
        IsWellFormed db → l.toolbox_id ≡ target → l.name ≡ name → IsWellFormed written
    written-IsWellFormed w owner label = record {
      owned = λ toolbox other b h. elim (Bool-cases (target == toolbox && name == other)) [
        | inl same ↦
            let (here, here') = both-equal target toolbox name other same in
            let e : b ≡ joined_row.binding =
              ground (arith, find-bind_rows target name toolbox other row.id db.bindings) in
            (joined_row, rw e join-written, owner ∙ here, label ∙ here')
        | inr apart ↦
            let (j, joined, owner', label') = w.owned toolbox other b (
              sym (find-bind_rows target name toolbox other row.id db.bindings ∙ rw apart refl)
              ∙ h) in
            (j, join-Extends written-Extends b j joined, owner', label')
      ];
      lineage_keys = w.lineage_keys;
      version_keys = written-keys w;
    }
