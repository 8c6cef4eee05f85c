-- ===== src/Tools/Activation.antt =====
-- What a new version and its binding do to the resolution of names.
use mathlib.Core.Option
use mechagnome.Base.{
  ℕ, suc, String, ◌≡◌, refl, ap, ◌∙◌, inl, inr, Bool, true, false, ◌&&◌, some, List, [], ◌∷◌, ◌++◌,
  arith, ◌==◌, nat_eq, string_eq, beq_refl, eq_of_beq, beq_sym, if◌then◌else◌, Bool-cases,
  Option-cases,
}
use mechagnome.Base.Rows.{
  find, max_of, or_else-none, find-append, find_sound, find-update, find_above_max_of,
}
use mechagnome.Outcome.{ok}
use mechagnome.Schema.{
  Version, Binding, Db, version_with_id, binding_named, has_toolbox, has_version, has_lineage,
}
use mechagnome.Schema.Insert.{insert_version, bind_rows, put_binding}

pub both-equal : (a b c d : String) → (a == b && c == d) ≡ true → (a ≡ b) × (c ≡ d)
both-equal a b c d h = (eq_of_beq a b (ground arith), eq_of_beq c d (ground arith))

module _ (target name : String) (i : ℕ) where
  abbrev bound_row : Binding
  bound_row = record { toolbox_id = target; name = name; tool_version_id = i }

  abbrev rebound : Binding → Binding
  rebound b = record b { tool_version_id = i }

  rebound_named : (b : Binding) → binding_named target name b ≡ true → rebound b ≡ bound_row
  rebound_named b h = let (here, label) = both-equal b.toolbox_id target b.name name h in cc

  -- the row of the name itself
  bound_here :
      (rows : List Binding)
      → find (binding_named target name) (bind_rows target name i rows) ≡ some bound_row
  unfolding bind_rows find
  bound_here rows = elim (Option-cases (find (binding_named target name) rows)) [
    | inl free ↦ rw free (
        find-append (binding_named target name) rows (bound_row ∷ [])
        ∙ rw (free, beq_refl target, beq_refl name) refl)
    | inr (b, taken) ↦
        let named = find_sound (binding_named target name) rows b taken in
        rw taken (
          find-update (binding_named target name) (binding_named target name) rebound (λ x h. refl)
            rows
          ∙ rw (taken, Option.map, named) (ap some (rebound_named b named)))
  ]

  -- the row of another name, or of another toolbox
  module _ (toolbox other : String) where
    differs :
        (x : Binding)
        → (target == toolbox && name == other) ≡ false
        → binding_named toolbox other x ≡ true
        → binding_named target name x ≡ false
    differs x apart h =
        let (here, label) = both-equal x.toolbox_id toolbox x.name other h in
        rw (here, label, beq_sym toolbox target, beq_sym other name) apart

    kept :
        (rows : List Binding)
        → (target == toolbox && name == other) ≡ false
        → Option.map
            (λ x. if binding_named target name x then rebound x else x)
            (find (binding_named toolbox other) rows)
          ≡ find (binding_named toolbox other) rows
    kept rows apart = elim (Option-cases (find (binding_named toolbox other) rows)) [
      | inl free ↦ rw (free, Option.map) refl
      | inr (x, found) ↦
          rw
            (
              found,
              Option.map,
              differs x apart (find_sound (binding_named toolbox other) rows x found),
            )
            refl
    ]

    bound_elsewhere :
        (rows : List Binding)
        → (target == toolbox && name == other) ≡ false
        → find (binding_named toolbox other) (bind_rows target name i rows)
          ≡ find (binding_named toolbox other) rows
    unfolding bind_rows find
    bound_elsewhere rows apart = elim (Option-cases (find (binding_named target name) rows)) [
      | inl free ↦ rw free (
          find-append (binding_named toolbox other) rows (bound_row ∷ [])
          ∙ rw apart (or_else-none (find (binding_named toolbox other) rows)))
      | inr (b, taken) ↦ rw taken (
          find-update (binding_named toolbox other) (binding_named target name) rebound
            (λ x h. refl) rows
          ∙ kept rows apart)
    ]

pub find-bind_rows :
    (target name toolbox other : String) (i : ℕ) (rows : List Binding)
    → find (binding_named toolbox other) (bind_rows target name i rows) ≡ (
        if target == toolbox && name == other
        then some (record { toolbox_id = target; name = name; tool_version_id = i })
        else find (binding_named toolbox other) rows)
unfolding bind_rows
find-bind_rows target name toolbox other i rows =
    elim (Bool-cases (target == toolbox && name == other)) [
      | inl same ↦
          let (here, label) = both-equal target toolbox name other same in
          rw (same, ← here, ← label) (bound_here target name i rows)
      | inr apart ↦ rw apart (bound_elsewhere target name i toolbox other rows apart)
    ]

pub put_binding_inv :
    (db : Db) (target name : String) (i : ℕ) (db' : Db)
    → put_binding db target name i ≡ ok db'
    → (db' ≡ record db { bindings = bind_rows target name i db.bindings })
      × (has_toolbox db target ≡ true)
      × (has_version db i ≡ true)
unfolding put_binding
put_binding_inv db target name i db' h = (ground arith, ground arith, ground arith)

abbrev pub new_version :
    Db → (lineage version : ℕ) (description schema_json source : String) → Version
new_version db lineage version description schema_json source = record {
  id = suc (max_of (λ (v : Version). v.id) db.versions);
  lineage_id = lineage;
  version = version;
  description = description;
  schema_json = schema_json;
  source = source;
}

module _ (db : Db) (lineage version : ℕ) (description schema_json source : String) where
  abbrev added : Version
  added = new_version db lineage version description schema_json source

  pub insert_version_inv :
      (i : ℕ) (db' : Db)
      → insert_version db lineage version description schema_json source ≡ ok (i, db')
      → (i ≡ added.id)
        × (db' ≡ record db { versions = db.versions ++ (added ∷ []) })
        × (has_lineage db lineage ≡ true)
  unfolding insert_version
  insert_version_inv i db' h = (ground arith, ground arith, ground arith)

  -- The new row is found by its id, and no old row has that id.
  pub find-added : find (version_with_id added.id) (db.versions ++ (added ∷ [])) ≡ some added
  unfolding find
  find-added =
      rw
        (
          find-append (version_with_id added.id) db.versions (added ∷ []),
          find_above_max_of (version_with_id added.id) (λ v. v.id) added.id (λ v h. ground arith)
              db.versions (omega arith),
          beq_refl added.id,
        )
        refl

  pub find-old :
      (p : Version → Bool) (v : Version)
      → find p db.versions ≡ some v
      → find p (db.versions ++ (added ∷ [])) ≡ some v
  find-old p v h = rw (find-append p db.versions (added ∷ []), h) refl
