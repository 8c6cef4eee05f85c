-- ===== src/Invoke/Quiet.antt =====
-- The kernel's methods behind a capability log no call: a write or a deletion keeps the marks.
use mechagnome.Base.{
  ℕ, String, ◌≡◌, refl, ap, ◌∙◌, Bool, true, false, not, ◌&&◌, Option, none, some, List, [], ◌∷◌,
  arith, ltb, nat_eq, string_eq, if◌then◌else◌,
}
use mechagnome.Outcome.{
  Result, ok, require, >>=-eq-ok, last_version, unknown_version, unknown_tool, some_or,
}
use mechagnome.Schema.{Payload, Version, Db, version_numbered, version_of}
use mechagnome.Schema.Insert.{
  insert_version, put_binding, replace_namespaces, delete_version, is_null,
}
use mechagnome.Tools.Resolve.{resolve_in, lineage_namespaces}
use mechagnome.Tools.Write.{
  WriteRequest, WriteResult, Authored, Activated, activate, write_connection, target_of, lineage_of,
  active_version, number_of, check_base, log_if, same_texts, next_namespaces, next_version,
}
use mechagnome.Tools.Delete.{
  delete_target, delete_version_connection, delete_binding_connection, roll_back_active,
  forget_version,
}
use mechagnome.Events.{Refs}
use mechagnome.Base.Rows.{find, where_rows, length}
use mechagnome.Invoke.Marks.{
  marks, mark_of, Keeps, Keeps-same, log_if-Keeps, lineage_of-Keeps, insert_namespaces-Keeps,
  forget_version-Keeps,
}

insert_version-events :
    (a : Db) (lineage n : ℕ) (d j s : String) (i : ℕ) (b : Db)
    → insert_version a lineage n d j s ≡ ok (i, b)
    → b.events ≡ a.events
unfolding insert_version
insert_version-events a lineage n d j s i b done = ground arith

put_binding-events :
    (a : Db) (target name : String) (i : ℕ) (b : Db)
    → put_binding a target name i ≡ ok b
    → b.events ≡ a.events
unfolding put_binding
put_binding-events a target name i b done = ground arith

delete_version-events : (a : Db) (i : ℕ) (b : Db) → delete_version a i ≡ ok b → b.events ≡ a.events
unfolding delete_version
delete_version-events a i b done = ground arith

roll_back_active-events :
    (a : Db) (target name : String) (lineage : ℕ) (v : Version)
    → (roll_back_active a target name lineage v).0.events ≡ a.events
unfolding roll_back_active
roll_back_active-events a target name lineage v = ground arith

-- Steps that keep the events themselves, and steps that keep the marks.
same_events : (a b : Db) → b.events ≡ a.events → Keeps a b
unfolding marks
same_events a b same = ap marks same

result_db :
    {A : Type 0} {x y : A} {a b : Db} → ◌≡◌ {A = Result (A × Db)} (ok (x, a)) (ok (y, b)) → a ≡ b
result_db h = ground arith

put_if_Keeps :
    (quiet : Bool) (session : Option String) (kind : String) (payload : Payload) (refs : Refs)
    (a b : Db)
    → mark_of kind refs.call_id ≡ none
    → (if quiet then ok a else log_if session kind payload refs a) ≡ ok b
    → Keeps a b
put_if_Keeps true session kind payload refs a b other done = Keeps-same a b (ground arith)
put_if_Keeps false session kind payload refs a b other done =
    log_if-Keeps session kind payload refs a b other done

activate-Keeps :
    (r : WriteRequest) (authored : Option Authored) (target : String) (lineage : ℕ)
    (active : Option Version) (a : Db) (x : Activated)
    → activate r authored target lineage active a ≡ ok x
    → Keeps a x.db
unfolding activate
activate-Keeps r (some d) target lineage active a x done =
    let ((i, a₁), inserted, h₁) =
      >>=-eq-ok
        (insert_version a lineage (next_version a lineage) d.description d.schema_json d.source) _
        done in
    let (a₂, bound, h₂) = >>=-eq-ok (put_binding a₁ target r.name i) _ h₁ in
    let (a₃, logged, h₃) = >>=-eq-ok (log_if r.session_id _ _ _ a₂) _ h₂ in
    let same : a₃ ≡ x.db = ground arith in
    Keeps-same a₃ x.db same
    ∙ log_if-Keeps r.session_id _ _ _ a₂ a₃ refl logged
    ∙ same_events a₁ a₂ (put_binding-events a₁ target r.name i a₂ bound)
    ∙ same_events a a₁
        (insert_version-events a lineage _ d.description d.schema_json d.source i a₁ inserted)
activate-Keeps r none target lineage none a x done = absurd (ground arith)
activate-Keeps r none target lineage (some v) a x done = Keeps-same a x.db (ground arith)

pub write_connection-Keeps :
    (r : WriteRequest) (authored : Option Authored) (ns : Option (List String))
    (scope : List String) (a : Db) (res : WriteResult) (b : Db)
    → write_connection r authored ns scope a ≡ ok (res, b)
    → Keeps a b
unfolding write_connection replace_namespaces
write_connection-Keeps r authored ns scope a res b done =
    let (target, _, h₁) =
      >>=-eq-ok (target_of a (not (is_null authored)) r.name r.toolbox scope) _ done in
    let ((lineage, a₁), made, h₂) =
      >>=-eq-ok (lineage_of a (not (is_null authored)) target r.name) _ h₁ in
    let active = active_version a₁ target r.name in
    let (_, _, h₃) =
      >>=-eq-ok (require (not (is_null authored && is_null active)) unknown_tool) _ h₂ in
    let (_, _, h₄) = >>=-eq-ok (check_base r.base_version (number_of active)) _ h₃ in
    let (x, activated, h₅) = >>=-eq-ok (activate r authored target lineage active a₁) _ h₄ in
    let (a₂, replaced, h₆) =
      >>=-eq-ok
        (replace_namespaces x.db lineage
          (next_namespaces r.name (lineage_namespaces a₁ lineage) ns))
        _ h₅ in
    let (a₃, logged, h₇) =
      >>=-eq-ok
        (if same_texts (lineage_namespaces a₁ lineage)
            (next_namespaces r.name (lineage_namespaces a₁ lineage) ns)
          then _
          else log_if r.session_id _ _ _ a₂)
        _ h₆ in
    let same : a₃ ≡ b = result_db h₇ in
    Keeps-same a₃ b same
    ∙ put_if_Keeps _ r.session_id _ _ _ a₂ a₃ refl logged
    ∙ insert_namespaces-Keeps _ lineage _ a₂ replaced
    ∙ activate-Keeps r authored target lineage active a₁ x activated
    ∙ same_events a a₁ (lineage_of-Keeps a (not (is_null authored)) target r.name lineage a₁ made)

pub delete_version-Keeps :
    (name : String) (version : ℕ) (session toolbox : Option String) (scope : List String) (a : Db)
    (back : Option ℕ) (b : Db)
    → delete_version_connection name version session toolbox scope a ≡ ok (back, b)
    → Keeps a b
unfolding delete_version_connection
delete_version-Keeps name version session toolbox scope a back b done =
    let (target, _, h₁) = >>=-eq-ok (delete_target a name toolbox scope) _ done in
    let (tool, _, h₂) = >>=-eq-ok (resolve_in a name none (target ∷ [])) _ h₁ in
    let (v, _, h₃) =
      >>=-eq-ok
        (some_or (find (version_numbered tool.lineage_id version) a.versions) unknown_version) _
        h₂ in
    let (_, _, h₄) =
      >>=-eq-ok
        (require (ltb 1 (length (where_rows (version_of tool.lineage_id) a.versions))) last_version)
        _ h₃ in
    let a₁ = (roll_back_active a target name tool.lineage_id v).0 in
    let (a₂, logged, h₅) =
      >>=-eq-ok (log_if session "version_deleted" _ _ (forget_version a₁ v.id)) _ h₄ in
    let (a₃, deleted, h₆) = >>=-eq-ok (delete_version a₂ v.id) _ h₅ in
    let same : a₃ ≡ b = result_db h₆ in
    Keeps-same a₃ b same
    ∙ same_events a₂ a₃ (delete_version-events a₂ v.id a₃ deleted)
    ∙ log_if-Keeps session _ _ _ (forget_version a₁ v.id) a₂ refl logged
    ∙ forget_version-Keeps a₁ v.id
    ∙ same_events a a₁ (roll_back_active-events a target name tool.lineage_id v)

pub delete_binding-Keeps :
    (name : String) (session toolbox : Option String) (scope : List String) (a : Db) (n : ℕ)
    (b : Db)
    → delete_binding_connection name session toolbox scope a ≡ ok (n, b)
    → Keeps a b
unfolding delete_binding_connection
delete_binding-Keeps name session toolbox scope a n b done =
    let (target, _, h₁) = >>=-eq-ok (delete_target a name toolbox scope) _ done in
    let (tool, _, h₂) = >>=-eq-ok (resolve_in a name none (target ∷ [])) _ h₁ in
    let (a₁, logged, h₃) = >>=-eq-ok (log_if session "binding_deleted" _ _ _) _ h₂ in
    let same : a₁ ≡ b = result_db h₃ in
    Keeps-same a₁ b same ∙ log_if-Keeps session _ _ _ _ a₁ refl logged
