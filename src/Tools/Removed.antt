-- ===== src/Tools/Removed.antt =====
-- What a successful `delete_tool` of a binding leaves behind.
use mechagnome.Base.{
  if◌then◌else◌, ℕ, String, ◌≡◌, refl, sym, ap, ◌∙◌, inl, inr, true, false, ◌&&◌, Option, none,
  some, List, [], ◌∷◌, arith, ◌==◌, nat_eq, string_eq, Bool-cases,
}
use mechagnome.Base.Rows.{delete_rows, or_else-none, find-delete_self, find-delete_other}
use mechagnome.Outcome.{Result, ok, >>=-eq-ok}
use mechagnome.Schema.{Binding, Db, binding_named}
use mechagnome.Tools.Resolve.{
  ResolvedTool, Joined, find_binding, join_binding, bound_in, first_bound, resolve_in,
}
use mechagnome.Tools.Write.{log_if}
use mechagnome.Tools.Delete.{delete_target, delete_binding_connection}
use mechagnome.Tools.Ownership.{
  IsWellFormed, SameTools, log_if-SameTools, bound_in-SameTools, IsWellFormed-SameTools,
}
use mechagnome.Tools.Activation.{both-equal}
use mechagnome.Tools.Leads.{Leads, first_bound-Leads, resolve_in-owner}

abbrev pub without : Db → (target name : String) → Db
without db target name = record db {
  bindings = delete_rows (binding_named target name) db.bindings;
}

unbound :
    (db : Db) (target name : String) → find_binding (without db target name) target name ≡ none
unbound db target name =
    find-delete_self (binding_named target name) (binding_named target name) (λ b h. h) db.bindings

differs :
    (target name toolbox other : String) (b : Binding)
    → (target == toolbox && name == other) ≡ false
    → binding_named target name b ≡ true
    → binding_named toolbox other b ≡ false
differs target name toolbox other b apart h =
    let (here, label) = both-equal b.toolbox_id target b.name name h in rw (here, label) apart

still_bound :
    (db : Db) (target name toolbox other : String)
    → (target == toolbox && name == other) ≡ false
    → find_binding (without db target name) toolbox other ≡ find_binding db toolbox other
still_bound db target name toolbox other apart =
    find-delete_other (binding_named toolbox other) (binding_named target name)
      (λ b h. differs target name toolbox other b apart h) db.bindings

without-IsWellFormed :
    {db : Db} → IsWellFormed db → (target name : String) → IsWellFormed (without db target name)
unfolding join_binding
without-IsWellFormed {db} w target name = record {
  owned = λ toolbox other b h. elim (Bool-cases (target == toolbox && name == other)) [
    | inl same ↦
        let (here, label) = both-equal target toolbox name other same in
        absurd (ground (arith, unbound db target name))
    | inr apart ↦ w.owned toolbox other b (sym (still_bound db target name toolbox other apart) ∙ h)
  ];
  lineage_keys = w.lineage_keys;
  version_keys = w.version_keys;
}

result_db : {m n : ℕ} {a b : Db} → ◌≡◌ {A = Result (ℕ × Db)} (ok (m, a)) (ok (n, b)) → b ≡ a
result_db h = ground arith

-- What a successful deletion did.
record Steps (name : String) (scope : List String) (db db' : Db) : Type 0 where
  target : String
  aimed : delete_target db name none scope ≡ ok target
  tool : ResolvedTool
  was : resolve_in db name none (target ∷ []) ≡ ok tool
  same : SameTools (without db target name) db'

SameTools-to : {a b c : Db} → c ≡ b → SameTools a b → SameTools a c
SameTools-to e s = rw e s

steps :
    (name : String) (session : Option String) (scope : List String) (db : Db) (n : ℕ) (db' : Db)
    → delete_binding_connection name session none scope db ≡ ok (n, db')
    → Steps name scope db db'
unfolding delete_binding_connection
steps name session scope db n db' h =
    let (target, aimed, h₁) = >>=-eq-ok (delete_target db name none scope) _ h in
    let (tool, was, h₂) = >>=-eq-ok (resolve_in db name none (target ∷ [])) _ h₁ in
    let (db₁, logged, h₃) = >>=-eq-ok (log_if session _ _ _ (without db target name)) _ h₂ in
    record {
      target = target;
      aimed = aimed;
      tool = tool;
      was = was;
      same =
          SameTools-to (result_db h₃)
            (log_if-SameTools session _ _ _ (without db target name) db₁ logged);
    }

delete_target-Leads :
    {db : Db}
    → IsWellFormed db
    → (name : String) (scope : List String) (target : String)
    → delete_target db name none scope ≡ ok target
    → Leads db name scope target
unfolding delete_target
delete_target-Leads {db} w name scope target h =
    let (tool, was, h₁) = >>=-eq-ok (resolve_in db name none scope) _ h in
    let (j, bound, owner) = resolve_in-owner db name scope tool was in
    let here : j.lineage.toolbox_id ≡ target = ground arith in
    rw here at (first_bound-Leads w name scope j bound)

abbrev joined_by : Db → Option Binding → Option Joined
joined_by db o = elim o [ none ↦ none | some b ↦ join_binding db b ]

bound_in-joined_by :
    (db : Db) (name toolbox : String)
    → bound_in db name toolbox ≡ joined_by db (find_binding db toolbox name)
unfolding bound_in
bound_in-joined_by db name toolbox = refl

bound_in-without :
    (db : Db) (target name toolbox other : String)
    → bound_in (without db target name) other toolbox
      ≡ joined_by db (find_binding (without db target name) toolbox other)
unfolding join_binding
bound_in-without db target name toolbox other =
    bound_in-joined_by (without db target name) other toolbox

only_bound :
    (db : Db) (name target : String) (tool : ResolvedTool)
    → resolve_in db name none (target ∷ []) ≡ ok tool
    → (j : Joined) × (bound_in db name target ≡ some j)
unfolding first_bound
only_bound db name target tool h =
    let (j, bound, _) = resolve_in-owner db name (target ∷ []) tool h in
    (j, sym (or_else-none (bound_in db name target)) ∙ bound)

bound_after :
    (db : Db) (target name toolbox other : String)
    → bound_in (without db target name) other toolbox
      ≡ (if target == toolbox && name == other then none else bound_in db other toolbox)
bound_after db target name toolbox other = elim (Bool-cases (target == toolbox && name == other)) [
  | inl same ↦
      let (here, label) = both-equal target toolbox name other same in
      rw (same, ← here, ← label)
        (bound_in-without db target name target name ∙ ap (joined_by db) (unbound db target name))
  | inr apart ↦ rw apart (
      bound_in-without db target name toolbox other
      ∙ ap (joined_by db) (still_bound db target name toolbox other apart)
      ∙ sym (bound_in-joined_by db other toolbox))
]

-- A successful deletion of a tool in a well-formed database, with no toolbox named, takes away the
-- one binding that the name led to in the scope, in the first toolbox that bound it. Every other
-- name, and the name in every other toolbox, is bound as it was; versions and lineages stay; and the
-- database is well formed.
pub delete_binding-exact :
    (name : String) (session : Option String) (scope : List String) (db : Db) (n : ℕ) (db' : Db)
    (toolbox other : String)
    → IsWellFormed db
    → delete_binding_connection name session none scope db ≡ ok (n, db')
    → (target : String) × Leads db name scope target
      × ((j : Joined) × (bound_in db name target ≡ some j))
      × (bound_in db' other toolbox
          ≡ (if target == toolbox && name == other then none else bound_in db other toolbox))
      × (db'.versions ≡ db.versions)
      × (db'.lineages ≡ db.lineages)
      × IsWellFormed db'
delete_binding-exact name session scope db n db' toolbox other w h =
    let s = steps name session scope db n db' h in
    (
      s.target,
      delete_target-Leads w name scope s.target s.aimed,
      only_bound db name s.target s.tool s.was,
      bound_in-SameTools s.same other toolbox ∙ bound_after db s.target name toolbox other,
      s.same.versions,
      s.same.lineages,
      IsWellFormed-SameTools s.same (without-IsWellFormed w s.target name),
    )
