-- ===== src/Tools/FullWrite.antt =====
-- The steps of a successful full `write_tool`, and what each name is bound to after them.
use mechagnome.Base.{
  ℕ, suc, String, ◌≡◌, refl, ap, ◌∙◌, inl, inr, Bool, true, false, ◌&&◌, Option, some, List, [],
  ◌∷◌, ◌++◌, arith, ◌==◌, nat_eq, string_eq, if◌then◌else◌, Option-cases,
}
use mechagnome.Base.Rows.{find, max_of}
use mechagnome.Outcome.{Result, ok, >>=-eq-ok}
use mechagnome.Schema.{Version, Payload, Db, binding_named, has_toolbox}
use mechagnome.Schema.Insert.{insert_version, bind_rows, put_binding, replace_namespaces}
use mechagnome.Events.{Refs}
use mechagnome.Tools.Resolve.{Joined, find_toolbox, bound_in, lineage_namespaces}
use mechagnome.Tools.Write.{
  WriteRequest, WriteResult, Authored, target_of, lineage_of, active_version, number_of, check_base,
  next_version, log_if, Activated, activate, same_texts, write_connection,
}
use mechagnome.Tools.Ownership.{
  IsWellFormed, SameTools, SameTools-refl, SameTools-trans, log_if-SameTools,
  replace_namespaces-SameTools, bound_in-SameTools, IsWellFormed-SameTools,
}
use mechagnome.Tools.Activation.{put_binding_inv, new_version, insert_version_inv}
use mechagnome.Tools.Extension.{bound_in-Extends, lineage_of_lem}
use mechagnome.Tools.Written.{
  written, bound_in-written, bound_in-written_ne, written-IsWellFormed, joined_row,
}

abbrev pub written_by : Db → ℕ → String → String → Authored → Db
written_by db lineage target name a =
    written db lineage (next_version db lineage) target name a.description a.schema_json a.source

activate_end :
    (db : Db) (lineage : ℕ) (target name : String) (a : Authored) (i : ℕ) (db₁ db₂ db₃ : Db)
    → i ≡ suc (max_of (λ (v : Version). v.id) db.versions)
    → db₁ ≡ record db {
      versions =
          db.versions
          ++ (new_version db lineage (next_version db lineage) a.description a.schema_json a.source
              ∷ []);
    }
    → db₂ ≡ record db₁ { bindings = bind_rows target name i db₁.bindings }
    → SameTools db₂ db₃
    → SameTools (written_by db lineage target name a) db₃
activate_end db lineage target name a i db₁ db₂ db₃ number state state' same =
    SameTools-trans (rw (state', state, number) (SameTools-refl _)) same

-- The branch of a full write, up to the events.
activate_lem :
    (r : WriteRequest) (a : Authored) (target : String) (lineage : ℕ) (active : Option Version)
    (db : Db) (x : Activated)
    → activate r (some a) target lineage active db ≡ ok x
    → (x.version ≡ next_version db lineage)
      × SameTools (written_by db lineage target r.name a) x.db
      × (has_toolbox db target ≡ true)
unfolding activate
activate_lem r a target lineage active db x h =
    let n = next_version db lineage in
    let ((i, db₁), inserted, h₁) =
      >>=-eq-ok (insert_version db lineage n a.description a.schema_json a.source) _ h in
    let (db₂, bound, h₂) = >>=-eq-ok (put_binding db₁ target r.name i) _ h₁ in
    let (db₃, logged, h₃) = >>=-eq-ok (log_if r.session_id _ _ _ db₂) _ h₂ in
    let (number, state, _) =
      insert_version_inv db lineage n a.description a.schema_json a.source i db₁ inserted in
    let (state', there, _) = put_binding_inv db₁ target r.name i db₂ bound in
    let same = log_if-SameTools r.session_id _ _ _ db₂ db₃ logged in
    let e : x ≡ record { version = n; version_id = i; db = db₃ } = ground arith in
    rw e (
      refl,
      activate_end db lineage target r.name a i db₁ db₂ db₃ number state state' same,
      rw state at there,
    )

-- What a full write did, step by step.
pub record Steps (r : WriteRequest) (a : Authored) (scope : List String) (db : Db)
    (res : WriteResult) (db' : Db) : Type 0 where
  pub target : String
  pub aimed : target_of db true r.name r.toolbox scope ≡ ok target
  pub lineage : ℕ
  pub base : Db
  pub made : lineage_of db true target r.name ≡ ok (lineage, base)
  pub present : has_toolbox base target ≡ true
  pub stored : SameTools (written_by base lineage target r.name a) db'
  pub number : res.version ≡ next_version base lineage

result_of :
    {x y : WriteResult} {a b : Db}
    → ◌≡◌ {A = Result (WriteResult × Db)} (ok (x, a)) (ok (y, b))
    → y ≡ x
result_of h = ground arith

result_db :
    {x y : WriteResult} {a b : Db}
    → ◌≡◌ {A = Result (WriteResult × Db)} (ok (x, a)) (ok (y, b))
    → b ≡ a
result_db h = ground arith

SameTools-to : {a b c : Db} → c ≡ b → SameTools a b → SameTools a c
SameTools-to e s = rw e s

maybe_logged :
    (quiet : Bool) (session : Option String) (kind : String) (payload : Payload) (refs : Refs)
    (db db' : Db)
    → (if quiet then ok db else log_if session kind payload refs db) ≡ ok db'
    → SameTools db db'
maybe_logged true session kind payload refs db db' h =
    let e : db' ≡ db = ground arith in rw e (SameTools-refl db)
maybe_logged false session kind payload refs db db' h =
    log_if-SameTools session kind payload refs db db' h

pub steps :
    (r : WriteRequest) (a : Authored) (ns : Option (List String)) (scope : List String) (db : Db)
    (res : WriteResult) (db' : Db)
    → write_connection r (some a) ns scope db ≡ ok (res, db')
    → Steps r a scope db res db'
unfolding write_connection
steps r a ns scope db res db' h =
    let (target, aimed, h₁) = >>=-eq-ok (target_of db true r.name r.toolbox scope) _ h in
    let ((lineage, db₁), made, h₂) = >>=-eq-ok (lineage_of db true target r.name) _ h₁ in
    let active = active_version db₁ target r.name in
    let (_, based, h₃) = >>=-eq-ok (check_base r.base_version (number_of active)) _ h₂ in
    let (x, done, h₄) = >>=-eq-ok (activate r (some a) target lineage active db₁) _ h₃ in
    let (db₂, replaced, h₅) = >>=-eq-ok (replace_namespaces x.db lineage _) _ h₄ in
    let (db₃, logged, h₆) =
      >>=-eq-ok
        (if same_texts (lineage_namespaces db₁ lineage) _
          then ok db₂
          else log_if r.session_id _ _ _ db₂)
        _ h₅ in
    let (number, same, there) = activate_lem r a target lineage active db₁ x done in
    let quiet =
      SameTools-trans (replace_namespaces-SameTools x.db lineage _ db₂ replaced)
        (maybe_logged _ _ _ _ _ db₂ db₃ logged) in
    record {
      target = target;
      aimed = aimed;
      lineage = lineage;
      base = db₁;
      made = made;
      present = there;
      stored = SameTools-to (result_db h₆) (SameTools-trans same quiet);
      number = ap (λ (w : WriteResult). w.version) (result_of h₆) ∙ number;
    }

module _ {r : WriteRequest} {a : Authored} {scope : List String} {db : Db} {res : WriteResult}
    {db' : Db} (s : Steps r a scope db res db') (w : IsWellFormed db) where
  open s use {target, lineage, base}

  abbrev pub stored_row : Version
  stored_row =
      new_version base lineage (next_version base lineage) a.description a.schema_json a.source

  -- The name leads to the stored version, in the target.
  pub target_reads :
      (j : Joined) × (bound_in db' r.name target ≡ some j)
      × (j.version ≡ stored_row)
      × (j.binding.tool_version_id ≡ stored_row.id)
      × (j.lineage.toolbox_id ≡ target)
  target_reads =
      let (l, found, owner, label, _, _, _, _, _) =
        lineage_of_lem db true target r.name lineage base s.made w in
      elim (Option-cases (find_toolbox base target)) [
        | inl gone ↦ absurd (ground (arith, s.present))
        | inr (t, there) ↦ (
          joined_row base lineage (next_version base lineage) target r.name a.description
              a.schema_json a.source l t found there,
          bound_in-SameTools s.stored r.name target
              ∙ bound_in-written base lineage (next_version base lineage) target r.name
                  a.description a.schema_json a.source l t found there,
          refl,
          refl,
          owner,
        )
      ]

  -- Any other name in any toolbox, and the name in any other toolbox, leads where it led.
  pub others_read :
      (name toolbox : String)
      → (target == toolbox && r.name == name) ≡ false
      → bound_in db' name toolbox ≡ bound_in db name toolbox
  others_read name toolbox apart =
      let (l, found, owner, label, _, ext, wb, kept, _) =
        lineage_of_lem db true target r.name lineage base s.made w in
      bound_in-SameTools s.stored name toolbox
      ∙ bound_in-written_ne base lineage (next_version base lineage) target r.name a.description
          a.schema_json a.source wb name toolbox apart
      ∙ bound_in-Extends w ext name toolbox (ap (find (binding_named toolbox name)) kept)

  pub full_write-IsWellFormed : IsWellFormed db'
  full_write-IsWellFormed =
      let (l, found, owner, label, _, _, wb, _, _) =
        lineage_of_lem db true target r.name lineage base s.made w in
      elim (Option-cases (find_toolbox base target)) [
        | inl gone ↦ absurd (ground (arith, s.present))
        | inr (t, there) ↦ IsWellFormed-SameTools s.stored (
            written-IsWellFormed base lineage (next_version base lineage) target r.name
              a.description a.schema_json a.source l t found there wb owner label)
      ]
