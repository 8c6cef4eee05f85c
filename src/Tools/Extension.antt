-- ===== src/Tools/Extension.antt =====
-- Databases that keep all rows of another one, and the making of a lineage.
use native.Mathlib.Nat.{le_refl}
use mechagnome.Base.{
  ℕ, suc, String, ◌≡◌, refl, inl, inr, Bool, some, [], ◌∷◌, ◌++◌, arith, nat_eq, string_eq,
  beq_refl, eq_of_beq, Option-cases,
}
use mechagnome.Base.Rows.{find, max_of, find-append, find_sound, find_above_max_of}
use mechagnome.Outcome.{ok}
use mechagnome.Schema.{Toolbox, Lineage, Version, Binding, Db, lineage_with_id, lineage_named}
use mechagnome.Schema.Insert.{insert_lineage}
use mechagnome.Tools.Resolve.{
  Joined, find_lineage, find_version, find_toolbox, find_binding, join_binding, bound_in,
}
use mechagnome.Tools.Write.{lineage_of}
use mechagnome.Tools.Ownership.{IsWellFormed}

pub record Extends (a b : Db) : Type 0 where
  pub toolboxes : (i : String) (t : Toolbox) → find_toolbox a i ≡ some t → find_toolbox b i ≡ some t
  pub lineages : (i : ℕ) (l : Lineage) → find_lineage a i ≡ some l → find_lineage b i ≡ some l
  pub versions : (i : ℕ) (v : Version) → find_version a i ≡ some v → find_version b i ≡ some v

pub Extends-refl : (a : Db) → Extends a a
Extends-refl a = record { toolboxes = λ i t h. h; lineages = λ i l h. h; versions = λ i v h. h }

pub Extends-trans : {a b c : Db} → Extends a b → Extends b c → Extends a c
Extends-trans p q = record {
  toolboxes = λ i t h. q.toolboxes i t (p.toolboxes i t h);
  lineages = λ i l h. q.lineages i l (p.lineages i l h);
  versions = λ i v h. q.versions i v (p.versions i v h);
}

pub join-Extends :
    {a b : Db}
    → Extends a b
    → (x : Binding) (j : Joined) → join_binding a x ≡ some j
    → join_binding b x ≡ some j
unfolding join_binding
join-Extends {a} {b} e x j h =
    let (v, hv, hv') = version_there in
    let (l, hl, hl') = lineage_there v hv in
    let (t, ht, ht') = toolbox_there v l hv hl in ground arith
  where
    version_there :
        (v : Version) × (find_version a x.tool_version_id ≡ some v)
        × (find_version b x.tool_version_id ≡ some v)
    version_there = elim (Option-cases (find_version a x.tool_version_id)) [
      | inl gone ↦ absurd (ground arith)
      | inr (v, hv) ↦ (v, hv, e.versions x.tool_version_id v hv)
    ]

    lineage_there :
        (v : Version)
        → find_version a x.tool_version_id ≡ some v
        → (l : Lineage) × (find_lineage a v.lineage_id ≡ some l)
          × (find_lineage b v.lineage_id ≡ some l)
    lineage_there v hv = elim (Option-cases (find_lineage a v.lineage_id)) [
      | inl gone ↦ absurd (ground arith)
      | inr (l, hl) ↦ (l, hl, e.lineages v.lineage_id l hl)
    ]

    toolbox_there :
        (v : Version) (l : Lineage)
        → find_version a x.tool_version_id ≡ some v
        → find_lineage a v.lineage_id ≡ some l
        → (t : Toolbox) × (find_toolbox a x.toolbox_id ≡ some t)
          × (find_toolbox b x.toolbox_id ≡ some t)
    toolbox_there v l hv hl = elim (Option-cases (find_toolbox a x.toolbox_id)) [
      | inl gone ↦ absurd (ground arith)
      | inr (t, ht) ↦ (t, ht, e.toolboxes x.toolbox_id t ht)
    ]

-- A binding that is kept leads where it led.
pub bound_in-Extends :
    {a b : Db}
    → IsWellFormed a
    → Extends a b
    → (name toolbox : String) → find_binding b toolbox name ≡ find_binding a toolbox name
    → bound_in b name toolbox ≡ bound_in a name toolbox
unfolding bound_in
bound_in-Extends {a} {b} w e name toolbox same = elim (Option-cases (find_binding a toolbox name)) [
  | inl free ↦ ground arith
  | inr (x, found) ↦
      let (j, joined, owner, label) = w.owned toolbox name x found in
      ground (arith, join-Extends e x j joined)
]

module _ (db : Db) (toolbox name : String) where
  abbrev pub new_lineage : Lineage
  new_lineage = record {
    id = suc (max_of (λ (l : Lineage). l.id) db.lineages);
    toolbox_id = toolbox;
    name = name;
  }

  abbrev pub with_lineage : Db
  with_lineage = record db { lineages = db.lineages ++ (new_lineage ∷ []) }

  insert_lineage_inv :
      (i : ℕ) (db' : Db)
      → insert_lineage db toolbox name ≡ ok (i, db')
      → (i ≡ new_lineage.id) × (db' ≡ with_lineage)
  unfolding insert_lineage
  insert_lineage_inv i db' h = (ground arith, ground arith)

  find-new_lineage : find_lineage with_lineage new_lineage.id ≡ some new_lineage
  unfolding find
  find-new_lineage =
      rw
        (
          find-append (lineage_with_id new_lineage.id) db.lineages (new_lineage ∷ []),
          find_above_max_of (lineage_with_id new_lineage.id) (λ l. l.id) new_lineage.id
              (λ l h. ground arith) db.lineages (le_refl _),
          beq_refl new_lineage.id,
        )
        refl

  with_lineage-Extends : Extends db with_lineage
  with_lineage-Extends = record {
    toolboxes = λ i t h. h;
    lineages = λ i l h. rw (find-append (lineage_with_id i) db.lineages (new_lineage ∷ []), h) refl;
    versions = λ i v h. h;
  }

  with_lineage-keys :
      IsWellFormed db
      → (t n : String) (l : Lineage) → find (lineage_named t n) with_lineage.lineages ≡ some l
      → find_lineage with_lineage l.id ≡ some l
  unfolding find
  with_lineage-keys w t n l h = elim (Option-cases (find (lineage_named t n) db.lineages)) [
    | inl free ↦
        let new : l ≡ new_lineage =
          ground (arith, find-append (lineage_named t n) db.lineages (new_lineage ∷ [])) in
        rw new find-new_lineage
    | inr (o, found) ↦
        let old : o ≡ l =
          ground (arith, find-append (lineage_named t n) db.lineages (new_lineage ∷ [])) in
        with_lineage-Extends.lineages l.id l (rw old at (w.lineage_keys t n o found))
  ]

  with_lineage-IsWellFormed : IsWellFormed db → IsWellFormed with_lineage
  with_lineage-IsWellFormed w = record {
    owned = λ t n b h.
        let (j, joined, owner, label) = w.owned t n b h in
        (j, join-Extends with_lineage-Extends b j joined, owner, label);
    lineage_keys = with_lineage-keys w;
    version_keys = w.version_keys;
  }

pub insert_lineage_lem :
    (db : Db) (target name : String) (i : ℕ) (db₁ : Db)
    → insert_lineage db target name ≡ ok (i, db₁)
    → IsWellFormed db
    → (l : Lineage) × (find_lineage db₁ i ≡ some l)
      × (l.toolbox_id ≡ target)
      × (l.name ≡ name)
      × (l.id ≡ i)
      × Extends db db₁
      × IsWellFormed db₁
      × (db₁.bindings ≡ db.bindings)
      × (db₁.versions ≡ db.versions)
insert_lineage_lem db target name i db₁ h w =
    let (number, state) = insert_lineage_inv db target name i db₁ h in
    rw (number, state)
      (
        new_lineage db target name,
        find-new_lineage db target name,
        refl,
        refl,
        refl,
        with_lineage-Extends db target name,
        with_lineage-IsWellFormed db target name w,
        refl,
        refl,
      )

-- The lineage that a write uses is the one of the name in the target toolbox.
pub lineage_of_lem :
    (db : Db) (full : Bool) (target name : String) (i : ℕ) (db₁ : Db)
    → lineage_of db full target name ≡ ok (i, db₁)
    → IsWellFormed db
    → (l : Lineage) × (find_lineage db₁ i ≡ some l)
      × (l.toolbox_id ≡ target)
      × (l.name ≡ name)
      × (l.id ≡ i)
      × Extends db db₁
      × IsWellFormed db₁
      × (db₁.bindings ≡ db.bindings)
      × (db₁.versions ≡ db.versions)
unfolding lineage_of
lineage_of_lem db full target name i db₁ h w =
    elim (Option-cases (find (lineage_named target name) db.lineages)) [
      | inl new ↦ insert_lineage_lem db target name i db₁ (ground arith) w
      | inr (l, found) ↦
          let number : i ≡ l.id = ground arith in
          let state : db₁ ≡ db = ground arith in
          let named = find_sound (lineage_named target name) db.lineages l found in
          rw (number, state)
            (
              l,
              w.lineage_keys target name l found,
              eq_of_beq l.toolbox_id target (ground arith),
              eq_of_beq l.name name (ground arith),
              refl,
              Extends-refl db,
              w,
              refl,
              refl,
            )
    ]
