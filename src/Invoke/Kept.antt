-- ===== src/Invoke/Kept.antt =====
-- The methods behind the capabilities keep the marks, in a scope that is given.
use mechagnome.Base.{
  List, [], ◌∷◌, ◌+◌, ◌≡◌, ◌∙◌, arith, ℕ, String, ◌≡◌, refl, inl, inr, Bool, Option, none, some,
  nat_eq, string_eq, Bool-cases,
}
use mechagnome.Outcome.{>>=-eq-ok, Result, ok, err, ◌>>=◌, transaction, Result-cases}
use mechagnome.Schema.{Session, Db}
use mechagnome.Events.{no_refs, append_event_connection}
use mechagnome.Sessions.Annotations.{
  Change, Edit, edit_sessions, change_event, apply_changes, changed_fields, normalize_metadata,
  update_connection, update_session_metadata,
}
use mechagnome.Sessions.Annotations.Revisions.{steps}
use mechagnome.Invoke.Program.{Runtime, Context}
use mechagnome.Schema.Host.{Kernel}
use mechagnome.Sessions.Create.{Scope}
use mechagnome.Sessions.Selection.{resolve_scope}
use mechagnome.Tools.Write.{WriteRequest, check_write, write_tool, write_connection}
use mechagnome.Tools.Delete.{
  binding_of, one_version, is_required, delete_tool, delete_version_connection,
  delete_binding_connection,
}
use mechagnome.Tools.Catalog.{check_namespace, catalog, list_tool_namespaces, view_tool}
use mechagnome.Invoke.Capability.{no_fresh, annotate}
use mechagnome.Invoke.Marks.{Keeps, Keeps-same, append_event_connection-marks, marks, append_nil}
use mechagnome.Invoke.Quiet.{write_connection-Keeps, delete_version-Keeps, delete_binding-Keeps}

-- A transaction keeps the marks, if what it commits does.
transaction-Keeps :
    {A : Type 0} (a : Db) (r : Result (A × Db))
    → ((x : A) (b : Db) → r ≡ ok (x, b) → Keeps a b)
    → Keeps a (transaction a r).1
transaction-Keeps a (err e) keeps = refl
transaction-Keeps a (ok (x, b)) keeps = keeps x b refl

tagged-Keeps :
    {A B : Type 0} (a : Db) (r : Result (A × Db)) (tag : A → B)
    → ((x : A) (b : Db) → r ≡ ok (x, b) → Keeps a b)
    → Keeps a (transaction a (do (x, b) ← r; ok (tag x, b))).1
tagged-Keeps a (err e) tag keeps = refl
tagged-Keeps a (ok (x, b)) tag keeps = keeps x b refl

apply_changes-Keeps :
    (e : Edit) (row : Session) (n : ℕ) (cs : List Change) (a b : Db)
    → apply_changes e row n cs a ≡ ok b
    → Keeps a b
unfolding apply_changes
apply_changes-Keeps e row n [] a b done = Keeps-same a b (ground (arith, done))
apply_changes-Keeps e row n (c ∷ cs) a b done =
    let edited = edit_sessions e c (n + 1) a in
    let ((m, a₁), logged, rest) =
      >>=-eq-ok
        (append_event_connection e.session_id "session_annotation_changed"
          (change_event e row c (n + 1)) no_refs edited)
        (λ r. apply_changes e row (n + 1) cs r.1) done in
    apply_changes-Keeps e row (n + 1) cs a₁ b rest
    ∙ append_event_connection-marks e.session_id "session_annotation_changed"
        (change_event e row c (n + 1)) no_refs edited m a₁ logged
    ∙ append_nil (marks a.events)

update_session_metadata-Keeps :
    (e : Edit) (changes : List Change) (expected : Option ℕ) (a : Db)
    → Keeps a (update_session_metadata e changes expected a).1
unfolding update_session_metadata
update_session_metadata-Keeps e changes expected a =
    transaction-Keeps a
      (do normalized ← normalize_metadata changes; update_connection e normalized expected a)
      λ x b done.
        let (normalized, _, went) =
          >>=-eq-ok (normalize_metadata changes) (λ cs. update_connection e cs expected a) done in
        let s = steps e normalized expected a x b went in
        apply_changes-Keeps e s.row s.row.annotation_revision (changed_fields s.row normalized) a b
          s.applied

module _ (k : Kernel) (run : Runtime) (scope : Scope) where
  pub annotate-Keeps :
      (ctx : Context) (field : String) (value session_id : Option String) (expected : Option ℕ)
      (a : Db)
      → Keeps a (annotate k run scope ctx field value session_id expected a).1
  unfolding annotate
  annotate-Keeps ctx field value session_id expected a =
      update_session_metadata-Keeps _ (record { field = field; value = value } ∷ []) expected a

module _ (k : Kernel) (scope : Scope) (a : Db) where
  pub catalog-Keeps :
      (core : Bool) (namespace : Option String)
      → Keeps a (catalog k no_fresh no_fresh none (some scope) core namespace a).1
  unfolding catalog resolve_scope
  catalog-Keeps core namespace = elim (Result-cases (check_namespace namespace)) [
    | inl (e, bad) ↦ rw bad refl
    | inr (_, good) ↦ rw good refl
  ]

  pub list_tool_namespaces-Keeps :
      (namespace : Option String)
      → Keeps a (list_tool_namespaces k no_fresh no_fresh none (some scope) namespace a).1
  unfolding list_tool_namespaces resolve_scope
  list_tool_namespaces-Keeps namespace = elim (Result-cases (check_namespace namespace)) [
    | inl (e, bad) ↦ rw bad refl
    | inr (_, good) ↦ rw good refl
  ]

  pub view_tool-Keeps :
      (name : String) (version : Option ℕ)
      → Keeps a (view_tool k no_fresh no_fresh none (some scope) name version none a).1
  unfolding view_tool resolve_scope
  view_tool-Keeps name version = refl

  pub write_tool-Keeps :
      (r : WriteRequest)
      → Keeps a (write_tool k no_fresh no_fresh (record r { scope = some scope }) a).1
  unfolding write_tool resolve_scope
  write_tool-Keeps r = elim (Result-cases (check_write k.host (record r { scope = some scope }))) [
    | inl (e, bad) ↦ rw (write_tool, bad) refl
    | inr ((authored, ns), good) ↦
        let r' : WriteRequest = record r { scope = some scope } in
        rw (write_tool, good)
          (transaction-Keeps a (write_connection r' authored ns scope.toolbox_ids a)
            (write_connection-Keeps r' authored ns scope.toolbox_ids a))
  ]

  pub delete_tool-Keeps :
      (name : String) (version : Option ℕ)
      → Keeps a
          (delete_tool k no_fresh no_fresh name version
            (some scope.session_id)
            (some scope)
            none
            a).1
  unfolding delete_tool resolve_scope
  delete_tool-Keeps name none = elim (Bool-cases (is_required name none)) [
    | inl kept ↦ rw (delete_tool, kept) refl
    | inr free ↦
        rw (delete_tool, free)
          (tagged-Keeps a
            (delete_binding_connection name (some scope.session_id) none scope.toolbox_ids a)
            binding_of (delete_binding-Keeps name (some scope.session_id) none scope.toolbox_ids a))
  ]
  delete_tool-Keeps name (some v) = elim (Bool-cases (is_required name (some v))) [
    | inl kept ↦ rw (delete_tool, kept) refl
    | inr free ↦
        rw (delete_tool, free)
          (tagged-Keeps a
            (delete_version_connection name v (some scope.session_id) none scope.toolbox_ids a)
            one_version
            (delete_version-Keeps name v (some scope.session_id) none scope.toolbox_ids a))
  ]
