-- ===== src/Tools/RolledBack.antt =====
-- What a successful `rollback` leaves behind.
use mechagnome.Base.{
  ℕ, String, ◌≡◌, refl, ap, ◌∙◌, inl, inr, true, false, ◌&&◌, Option, none, some, List, [], ◌∷◌,
  arith, ◌==◌, nat_eq, string_eq, eq_of_beq, beq_refl, Option-cases,
}
use mechagnome.Base.Rows.{find, find_sound, or_else-none}
use mechagnome.Outcome.{Error, Result, ok, some_or, >>=-eq-ok}
use mechagnome.Schema.{
  Lineage, Version, Toolbox, Binding, Db, has_toolbox, version_numbered, lineage_named,
  binding_named,
}
use mechagnome.Schema.Insert.{put_binding, bind_rows}
use mechagnome.Toolboxes.{toolbox_id}
use mechagnome.Tools.Resolve.{
  ResolvedTool, Joined, find_version, find_lineage, find_toolbox, join_binding, bound_in,
  first_bound, resolved, wanted_version, resolve_in, first_lineage, lineage_for_history,
}
use mechagnome.Tools.Delete.{Rollback, Place, rollback_place, rollback_connection}
use mechagnome.Tools.Ownership.{IsWellFormed}
use mechagnome.Tools.Activation.{find-bind_rows, put_binding_inv}
use mechagnome.Tools.Leads.{
  Leads, first_bound-Leads, resolve_in-owner, first_bound-target, bound_in-version,
}

-- The lineage that the history search finds is found by its id.
lineage_for_history-key :
    {db : Db}
    → IsWellFormed db
    → (name toolbox : String) (scope : List String) (l : Lineage)
    → lineage_for_history db name scope (some toolbox) ≡ ok l
    → (find_lineage db l.id ≡ some l)
      × ((t : String) × (toolbox_id db toolbox ≡ ok t)
          × (find (lineage_named t name) db.lineages ≡ some l))
unfolding lineage_for_history first_lineage
lineage_for_history-key {db} w name toolbox scope l h =
    let (t, found, h₁) = >>=-eq-ok (toolbox_id db toolbox) _ h in
    let named : find (lineage_named t name) db.lineages ≡ some l =
      ground (arith, or_else-none (find (lineage_named t name) db.lineages)) in
    (w.lineage_keys t name l named, (t, found, named))

placed_at : {p q : Place} → ◌≡◌ {A = Result Place} (ok p) (ok q) → q ≡ p
placed_at h = ground arith

-- Without a toolbox, the place of a rollback is that of the tool that the name resolves to.
record Found (db : Db) (name : String) (scope : List String) (place : Place) : Type 0 where
  tool : ResolvedTool
  was : resolve_in db name none scope ≡ ok tool
  target_is : place.target ≡ tool.toolbox_id
  current_is : place.current ≡ some tool
  keyed : find_lineage db place.lineage.id ≡ some place.lineage
  box : String
  box_named : toolbox_id db tool.toolbox_name ≡ ok box
  own : find (lineage_named box name) db.lineages ≡ some place.lineage

find_place :
    {db : Db}
    → IsWellFormed db
    → (name : String) (scope : List String) (place : Place)
    → rollback_place db name none scope ≡ ok place
    → Found db name scope place
unfolding rollback_place
find_place {db} w name scope place h =
    let (tool, was, h₁) = >>=-eq-ok (resolve_in db name none scope) _ h in
    let (l, listed, h₂) =
      >>=-eq-ok (lineage_for_history db name scope (some tool.toolbox_name)) _ h₁ in
    let here = placed_at h₂ in
    let (keyed, (box, box_named, own)) =
      lineage_for_history-key w name tool.toolbox_name scope l listed in
    record {
      tool = tool;
      was = was;
      target_is = ap (λ (p : Place). p.target) here;
      current_is = ap (λ (p : Place). p.current) here;
      keyed = rw here keyed;
      box = box;
      box_named = box_named;
      own = rw here own;
    }

-- What a successful rollback did at its place.
record Steps (db : Db) (name : String) (version : ℕ) (scope : List String) (place : Place)
    (res : Rollback) (db' : Db) : Type 0 where
  placed : rollback_place db name none scope ≡ ok place
  v : Version
  found : find (version_numbered place.lineage.id version) db.versions ≡ some v
  stored : db' ≡ record db { bindings = bind_rows place.target name v.id db.bindings }
  present : has_toolbox db place.target ≡ true
  number : res.to_version ≡ v.version

found_row : (o : Option Version) (e : Error) (v : Version) → some_or o e ≡ ok v → o ≡ some v
found_row none e v h = absurd (ground arith)
found_row (some u) e v h = ground arith

result_of :
    {x y : Rollback} {a b : Db}
    → ◌≡◌ {A = Result (Rollback × Db)} (ok (x, a)) (ok (y, b))
    → (y ≡ x) × (b ≡ a)
result_of h = (ground arith, ground arith)

steps :
    (db : Db) (name : String) (version : ℕ) (scope : List String) (res : Rollback) (db' : Db)
    → rollback_connection name version none scope db ≡ ok (res, db')
    → (place : Place) × Steps db name version scope place res db'
unfolding rollback_connection
steps db name version scope res db' h =
    let (place, placed, h₁) = >>=-eq-ok (rollback_place db name none scope) _ h in
    let (v, known, h₂) =
      >>=-eq-ok (some_or (find (version_numbered place.lineage.id version) db.versions) _) _ h₁ in
    let (db₁, put, h₃) = >>=-eq-ok (put_binding db place.target name v.id) _ h₂ in
    let (state, there, _) = put_binding_inv db place.target name v.id db₁ put in
    let (number, same) = result_of h₃ in
    (
      place,
      record {
        placed = placed;
        v = v;
        found = found_row _ _ v known;
        stored = same ∙ state;
        present = there;
        number = ap (λ (r : Rollback). r.to_version) number;
      },
    )

numbered_row :
    (lineage n : ℕ) (rows : List Version) (v : Version)
    → find (version_numbered lineage n) rows ≡ some v
    → (v.lineage_id ≡ lineage) × (v.version ≡ n)
numbered_row lineage n rows v h =
    let named = find_sound (version_numbered lineage n) rows v h in
    (eq_of_beq v.lineage_id lineage (ground arith), eq_of_beq v.version n (ground arith))

join-row :
    (db : Db) (b : Binding) (v : Version) (l : Lineage) (t : Toolbox)
    → find_version db b.tool_version_id ≡ some v
    → find_lineage db v.lineage_id ≡ some l
    → find_toolbox db b.toolbox_id ≡ some t
    → join_binding db b ≡ some (record { binding = b; version = v; lineage = l; toolbox = t })
unfolding join_binding
join-row db b v l t row owner place = rw (join_binding, row, owner, place) refl

-- The binding that a rollback puts leads to the version with the number.
rebound_joined :
    {db : Db}
    → IsWellFormed db
    → (name : String) (version : ℕ) (target : String) (l : Lineage) (v : Version)
    → find (version_numbered l.id version) db.versions ≡ some v
    → find_lineage db l.id ≡ some l
    → has_toolbox db target ≡ true
    → (j : Joined) × (bound_in
          (record db { bindings = bind_rows target name v.id db.bindings })
          name
          target
        ≡ some j)
      × (j.version ≡ v)
      × (j.binding.tool_version_id ≡ v.id)
unfolding bound_in join_binding
rebound_joined {db} w name version target l v found keyed present =
    let row = w.version_keys l.id version v found in
    let (owner, _) = numbered_row l.id version db.versions v found in
    let chosen : find (binding_named target name) (bind_rows target name v.id db.bindings)
        ≡ some (record { toolbox_id = target; name = name; tool_version_id = v.id }) =
      find-bind_rows target name target name v.id db.bindings
      ∙ rw (beq_refl target, beq_refl name) refl in
    elim (Option-cases (find_toolbox db target)) [
      | inl gone ↦ absurd (ground (arith, present))
      | inr (t, there) ↦ (
        record {
          binding = record { toolbox_id = target; name = name; tool_version_id = v.id };
          version = v;
          lineage = l;
          toolbox = t;
        },
        ap (λ (o : Option Binding). elim o [ none ↦ none | some b ↦ join_binding db b ]) chosen
            ∙ join-row db (record { toolbox_id = target; name = name; tool_version_id = v.id }) v l
                t row (ap (find_lineage db) owner ∙ keyed) there,
        refl,
        refl,
      )
    ]

others_kept :
    (db : Db) (name target : String) (i : ℕ) (other toolbox : String)
    → (target == toolbox && name == other) ≡ false
    → bound_in (record db { bindings = bind_rows target name i db.bindings }) other toolbox
      ≡ bound_in db other toolbox
unfolding bound_in join_binding
others_kept db name target i other toolbox apart =
    ap (λ (o : Option Binding). elim o [ none ↦ none | some b ↦ join_binding db b ])
      (find-bind_rows target name toolbox other i db.bindings ∙ rw apart refl)

others_bound :
    (db : Db) (name target : String) (i : ℕ) (other : String) (ts : List String)
    → (name == other) ≡ false
    → first_bound (record db { bindings = bind_rows target name i db.bindings }) other ts
      ≡ first_bound db other ts
unfolding first_bound
others_bound db name target i other [] apart = refl
others_bound db name target i other (t ∷ ts) apart =
    rw
      (
        others_kept db name target i other t (ground arith),
        others_bound db name target i other ts apart,
      )
      refl

-- After a successful rollback with no toolbox named, in a well-formed database, the name resolves
-- in the same scope to the stored version that has the wanted number in the tool's own history, with
-- its source, and this number is returned. The history is the lineage of the name in the toolbox that
-- the name resolved to before.
pub rollback-resolve :
    (db : Db) (name : String) (version : ℕ) (scope : List String) (res : Rollback) (db' : Db)
    → IsWellFormed db
    → rollback_connection name version none scope db ≡ ok (res, db')
    → (tool : ResolvedTool) × (resolve_in db' name none scope ≡ ok tool)
      × (tool.version ≡ version)
      × (res.to_version ≡ version)
      × ((before : ResolvedTool) × (resolve_in db name none scope ≡ ok before)
          × ((box : String) × (toolbox_id db before.toolbox_name ≡ ok box)
              × ((l : Lineage) × (find (lineage_named box name) db.lineages ≡ some l)
                  × ((v : Version) × (find (version_numbered l.id version) db.versions ≡ some v)
                      × (tool.id ≡ v.id)
                      × (tool.source ≡ v.source)))))
unfolding resolve_in wanted_version
rollback-resolve db name version scope res db' w h =
    let (place, s) = steps db name version scope res db' h in
    let f = find_place w name scope place s.placed in
    let (_, number) = numbered_row place.lineage.id version db.versions s.v s.found in
    let (k, before, owner) = resolve_in-owner db name scope f.tool f.was in
    let front : Leads db name scope place.target =
      rw (f.target_is ∙ owner) (first_bound-Leads w name scope k before) in
    let (j, bound, row, id) =
      rebound_joined w name version place.target place.lineage s.v s.found f.keyed s.present in
    let first : first_bound db' name scope ≡ some j = rw s.stored (
      first_bound-target db _ name place.target j bound
        (λ t apart. others_kept db name place.target s.v.id name t (rw apart refl)) scope front) in
    let stored : find_version db' j.binding.tool_version_id ≡ some j.version =
      bound_in-version db' name place.target j (rw s.stored bound) in
    (
      resolved j j.version,
      rw (first, stored) refl,
      ap (λ (v : Version). v.version) row ∙ number,
      s.number ∙ number,
      (
        f.tool,
        f.was,
        (
          f.box,
          f.box_named,
          (
            place.lineage,
            f.own,
            (s.v, s.found, ap (λ (v : Version). v.id) row, ap (λ (v : Version). v.source) row),
          ),
        ),
      ),
    )

-- A successful rollback with no toolbox named changes what no other name is bound to, through any
-- list of toolboxes, and no version.
pub rollback_ne :
    (db : Db) (name : String) (version : ℕ) (scope : List String) (res : Rollback) (db' : Db)
    (other : String) (ts : List String)
    → (name == other) ≡ false
    → rollback_connection name version none scope db ≡ ok (res, db')
    → (first_bound db' other ts ≡ first_bound db other ts) × (db'.versions ≡ db.versions)
rollback_ne db name version scope res db' other ts apart h =
    let (place, s) = steps db name version scope res db' h in
    (
      rw s.stored (others_bound db name place.target s.v.id other ts apart),
      ap (λ (d : Db). d.versions) s.stored,
    )
