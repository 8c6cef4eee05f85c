-- ===== src/Tools/Ownership.antt =====
-- The invariant of bindings: the binding of a name in a toolbox leads to a version whose lineage has
-- that name and belongs to that toolbox. Rows are also found by either of their keys.
use mechagnome.Base.{
  ℕ, String, ◌≡◌, refl, ◌∙◌, Option, none, some, List, [], ◌∷◌, ◌++◌, arith, nat_eq, string_eq,
}
use mechagnome.Base.Rows.{find}
use mechagnome.Outcome.{ok, >>=-eq-ok}
use mechagnome.Schema.{
  Lineage, Namespace, Version, Binding, Payload, Db, lineage_named, version_numbered,
}
use mechagnome.Schema.Insert.{insert_namespaces, replace_namespaces}
use mechagnome.Events.Gapless.{append_inv}
use mechagnome.Events.{Refs, append_event_connection}
use mechagnome.Tools.Resolve.{
  Joined, find_lineage, find_version, find_binding, join_binding, bound_in,
}
use mechagnome.Tools.Write.{log_if}

pub record IsWellFormed (db : Db) : Type 0 where
  pub owned :
      (toolbox name : String) (b : Binding)
      → find_binding db toolbox name ≡ some b
      → (j : Joined) × (join_binding db b ≡ some j)
        × (j.lineage.toolbox_id ≡ toolbox)
        × (j.lineage.name ≡ name)
  pub lineage_keys :
      (toolbox name : String) (l : Lineage)
      → find (lineage_named toolbox name) db.lineages ≡ some l
      → find_lineage db l.id ≡ some l
  pub version_keys :
      (lineage n : ℕ) (v : Version)
      → find (version_numbered lineage n) db.versions ≡ some v
      → find_version db v.id ≡ some v

-- Two databases with the same tools.
pub record SameTools (a b : Db) : Type 0 where
  pub toolboxes : b.toolboxes ≡ a.toolboxes
  pub lineages : b.lineages ≡ a.lineages
  pub versions : b.versions ≡ a.versions
  pub bindings : b.bindings ≡ a.bindings

pub SameTools-refl : (a : Db) → SameTools a a
SameTools-refl a = record { toolboxes = refl; lineages = refl; versions = refl; bindings = refl }

pub SameTools-trans : {a b c : Db} → SameTools a b → SameTools b c → SameTools a c
SameTools-trans p q = record {
  toolboxes = q.toolboxes ∙ p.toolboxes;
  lineages = q.lineages ∙ p.lineages;
  versions = q.versions ∙ p.versions;
  bindings = q.bindings ∙ p.bindings;
}

pub append_event_connection-SameTools :
    (session kind : String) (payload : Payload) (refs : Refs) (db : Db) (n : ℕ) (db' : Db)
    → append_event_connection session kind payload refs db ≡ ok (n, db')
    → SameTools db db'
append_event_connection-SameTools session kind payload refs db n db' h =
    let (_, state) = append_inv db session kind payload refs n db' h in
    rw state (record { toolboxes = refl; lineages = refl; versions = refl; bindings = refl })

pub log_if-SameTools :
    (session : Option String) (kind : String) (payload : Payload) (refs : Refs) (db db' : Db)
    → log_if session kind payload refs db ≡ ok db'
    → SameTools db db'
log_if-SameTools none kind payload refs db db' h =
    let e : db' ≡ db = ground arith in rw e (SameTools-refl db)
log_if-SameTools (some session) kind payload refs db db' h =
    let ((n, db₁), done, rest) =
      >>=-eq-ok (append_event_connection session kind payload refs db) _ h in
    let e : db' ≡ db₁ = ground arith in
    rw e (append_event_connection-SameTools session kind payload refs db n db₁ done)

insert_namespaces-SameTools :
    (db : Db) (lineage : ℕ) (paths : List String) (db' : Db)
    → insert_namespaces db lineage paths ≡ ok db'
    → SameTools db db'
unfolding insert_namespaces
insert_namespaces-SameTools db lineage [] db' h =
    let e : db' ≡ db = ground arith in rw e (SameTools-refl db)
insert_namespaces-SameTools db lineage (p ∷ ps) db' h =
    let row : Namespace = record { lineage_id = lineage; path = p } in
    let db₁ : Db = record db { namespaces = db.namespaces ++ (row ∷ []) } in
    let same = insert_namespaces-SameTools db₁ lineage ps db' (ground arith) in
    record {
      toolboxes = same.toolboxes;
      lineages = same.lineages;
      versions = same.versions;
      bindings = same.bindings;
    }

pub replace_namespaces-SameTools :
    (db : Db) (lineage : ℕ) (paths : List String) (db' : Db)
    → replace_namespaces db lineage paths ≡ ok db'
    → SameTools db db'
unfolding replace_namespaces
replace_namespaces-SameTools db lineage paths db' h =
    let same = insert_namespaces-SameTools _ lineage paths db' h in
    record {
      toolboxes = same.toolboxes;
      lineages = same.lineages;
      versions = same.versions;
      bindings = same.bindings;
    }

-- What a name resolves to depends on the tools alone.
pub join_binding-SameTools :
    {a b : Db} → SameTools a b → (x : Binding) → join_binding b x ≡ join_binding a x
unfolding join_binding
join_binding-SameTools s x = rw (s.toolboxes, s.lineages, s.versions) refl

pub bound_in-SameTools :
    {a b : Db}
    → SameTools a b
    → (name toolbox : String) → bound_in b name toolbox ≡ bound_in a name toolbox
unfolding bound_in
bound_in-SameTools s name toolbox = rw (s.toolboxes, s.lineages, s.versions, s.bindings) refl

pub IsWellFormed-SameTools : {a b : Db} → SameTools a b → IsWellFormed a → IsWellFormed b
IsWellFormed-SameTools {a} {b} s w = record {
  owned = λ toolbox name x h.
      let (j, joined, owner, label) = w.owned toolbox name x (rw s.bindings at h) in
      (j, join_binding-SameTools s x ∙ joined, owner, label);
  lineage_keys =
      λ toolbox name l h. rw s.lineages (w.lineage_keys toolbox name l (rw s.lineages at h));
  version_keys = λ lineage n v h. rw s.versions (w.version_keys lineage n v (rw s.versions at h));
}
