-- ===== src/Sessions/Selection.antt =====
-- src/mechagnome/kernel.py: the ordered toolbox selection of a session and the scope of a call tree,
-- `_selection_ids`, `select_toolboxes`, `_replace_selection`, `_session_default_id`,
-- `reset_toolboxes`, `active_toolboxes`, `snapshot_scope` and `_scope`.
pub mod Modes
pub mod Order
use mechagnome.Sessions.Create.{Fresh, Scope, create_session}
use mechagnome.Base.{
  ℕ, zero, suc, ◌+◌, ◌-◌, ◌≤◌, ◌<◌, min, max, String, ◌≡◌, refl, sym, ap, ◌∙◌, ◌≢◌, ◌↔◌, ◌⊎◌, inl,
  inr, Bool, true, false, not, ◌&&◌, ◌||◌, Option, none, some, List, [], ◌∷◌, ◌++◌, map, arith, ltb,
  leb, ◌==◌, nat_eq, string_eq, beq_refl, eq_of_beq, ne_of_beq, beq_of_ne, beq_sym, if◌then◌else◌,
  Bool-cases, Option-cases,
}
use mechagnome.Base.Rows.{
  find, where_rows, delete_rows, update_rows, max_of, length, is_some, or_else, find-append,
  find_sound, find-delete_other, find-delete_self, find-update, find-le-max_of, find_above_max_of,
  max_of-append, where_rows-append, find-where_rows,
}
use mechagnome.Outcome.{
  Error, Result, ok, err, ◌>>=◌, ◌>>◌, require, some_or, is_unknown_tool, transaction, then_run,
  >>=-eq-ok, invalid_toolbox_name, toolbox_exists, unknown_toolbox, invalid_session_kind,
  invalid_session_origin, unknown_session, invalid_session_context, invalid_session,
  invalid_session_metadata, session_access_denied, invalid_annotation_revision,
  session_annotation_conflict, invalid_selection_mode, empty_selection, invalid_name,
  invalid_description, invalid_schema, invalid_source, missing_main, sync_main, invalid_main,
  invalid_write, invalid_namespace, core_schema_pinned, core_tool_required, unknown_tool,
  unknown_version, last_version, no_rollback, stale_base_version, not_json, invalid_input,
  max_depth, max_calls, integrity_error,
}
use mechagnome.Schema.{
  Toolbox, CwdDefault, Lineage, Namespace, Version, Binding, Session, SessionToolbox, Payload,
  Event, Db, blank, toolbox_with_id, toolbox_with_name, default_of_cwd, default_to_toolbox,
  lineage_with_id, lineage_named, version_with_id, version_numbered, version_of, binding_named,
  binding_to, session_with_id, selected_by, event_of, has_toolbox, has_session, has_version,
  has_lineage, events_of,
}
use mechagnome.Schema.Insert.{
  insert_toolbox, put_cwd_default, insert_lineage, insert_version, bind_rows, put_binding,
  insert_binding, delete_version, insert_namespaces, replace_namespaces, insert_session,
  insert_selection, insert_event, null_or, context_fits, same_text, is_null, known_kind,
}
use mechagnome.Schema.Host.{
  Json, MainDef, BootstrapTool, Host, Kernel, core_names, contains, is_core, core_schema,
}
use mechagnome.Events.{
  Refs, no_refs, seq_of, event_with, last_seq, append_event_connection, append_event,
  latest_event_sequence, latest_completed, is_completed, insert_by_seq, sort_by_seq, take,
  last_seq_of, Page, page_limit, page_of, read_session,
}
use mechagnome.Toolboxes.{
  toolbox_id, seed_tool, seed_missing_core, create_toolbox_connection, ensure_cwd_default,
  create_toolbox,
}

-- ORDER BY position
unfoldable pub insert_by_position : SessionToolbox → List SessionToolbox → List SessionToolbox
insert_by_position s [] = s ∷ []
insert_by_position s (t ∷ ts) =
    let rest = insert_by_position s ts in if leb s.position t.position then s ∷ t ∷ ts else t ∷ rest

unfoldable pub sort_by_position : List SessionToolbox → List SessionToolbox
unfolding insert_by_position
sort_by_position [] = []
sort_by_position (s ∷ ss) = insert_by_position s (sort_by_position ss)

abbrev pub selection_rows : Db → String → List SessionToolbox
selection_rows db session = where_rows (selected_by session) db.session_toolboxes

-- `Kernel._selection_ids`
unfoldable pub selection_ids : Db → String → List String
selection_ids db session = map (λ s. s.toolbox_id) (sort_by_position (selection_rows db session))

-- `list(dict.fromkeys(items))`
unfoldable pub dedup : List String → List String
dedup [] = []
dedup (x ∷ xs) = x ∷ where_rows (λ y. not (y == x)) (dedup xs)

-- `[self._toolbox_id(connection, name) for name in names]`
unfoldable pub toolbox_ids : Db → List String → Result (List String)
toolbox_ids db [] = ok []
toolbox_ids db (name ∷ names) = do i ← toolbox_id db name; is ← toolbox_ids db names; ok (i ∷ is)

-- `Kernel._replace_selection`
unfoldable pub replace_selection : Db → String → List String → Result Db
replace_selection db session ids =
    insert_selection
      (record db { session_toolboxes = delete_rows (selected_by session) db.session_toolboxes })
      session 0 ids

-- `row["cwd"] or self.cwd`
abbrev pub cwd_or : Option String → String → String
cwd_or none d = d
cwd_or (some c) d = if c == "" then d else c

-- A row of `active_toolboxes`.
pub record ActiveToolbox : Type 0 where
  pub id : String
  pub name : String
  pub cwd : Option String
  pub position : ℕ
  pub primary : Bool

abbrev cwd_of_default : Option CwdDefault → Option String
cwd_of_default none = none
cwd_of_default (some d) = some d.cwd

-- The joins of `active_toolboxes`, over the rows in the order of their positions.
unfoldable pub active_rows : Db → List SessionToolbox → List ActiveToolbox
active_rows db [] = []
active_rows db (s ∷ ss) =
    let rest = active_rows db ss in
    elim (find (toolbox_with_id s.toolbox_id) db.toolboxes) [
      | none ↦ rest
      | some t ↦
          record {
            id = t.id;
            name = t.name;
            cwd = cwd_of_default (find (default_to_toolbox t.id) db.cwd_defaults);
            position = s.position;
            primary = s.position == 0;
          }
          ∷ rest
    ]

pub data Mode : Type 0 where
  use_only add remove : Mode

-- The three texts that `mode` may be.
unfoldable pub mode_of : String → Option Mode
mode_of m =
    if m == "use"
    then some use_only
    else if m == "add"
    then some add
    else if m == "remove"
    then some remove
    else none

module _ (k : Kernel) where
  -- `Kernel._session_default_id`
  unfoldable pub session_default_id : Db → String → String → Result (String × Db)
  session_default_id db uuid session = do
    s ← some_or (find (session_with_id session) db.sessions) unknown_session
    ensure_cwd_default k db uuid (cwd_or s.cwd k.cwd)

  -- The new selection, from the old one and the requested toolboxes.
  unfoldable pub next_selection :
      Mode
      → Db
      → (uuid session : String) → (before requested : List String) → Result (List String × Db)
  unfolding session_default_id
  next_selection use_only db uuid session before [] = err empty_selection
  next_selection use_only db uuid session before (r ∷ rs) = ok (dedup (r ∷ rs), db)
  next_selection add db uuid session before requested =
      ok (before ++ where_rows (λ i. not (contains before i)) requested, db)
  next_selection remove db uuid session before requested =
      elim (where_rows (λ i. not (contains requested i)) before) [
        | [] ↦ do (default, db') ← session_default_id db uuid session; ok (default ∷ [], db')
        | i ∷ is ↦ ok (i ∷ is, db)
      ]

  -- The transaction of `Kernel.select_toolboxes`.
  unfoldable pub select_connection :
      (uuid session : String) → List String → String → Mode → Db → Result (List String × Db)
  unfolding next_selection toolbox_ids replace_selection
  select_connection uuid session names text mode db = do
    ids ← toolbox_ids db names
    (after, db₁) ← next_selection mode db uuid session (selection_ids db session) (dedup ids)
    db₂ ← replace_selection db₁ session after
    (_, db₃) ←
        append_event_connection session "toolbox_selection_changed"
          (Payload.selection_changed text (selection_ids db session) after) no_refs db₂
    ok (after, db₃)

  -- `Kernel.active_toolboxes`
  unfoldable pub active_toolboxes : Fresh → String → Db → Result (List ActiveToolbox) × Db
  unfolding active_rows
  active_toolboxes fresh session db =
      then_run (create_session k fresh (some session) "generic" db)
        λ _ db₁. (ok (active_rows db₁ (sort_by_position (selection_rows db₁ session))), db₁)

  -- `Kernel.select_toolboxes`; the second uuids are for the call of `active_toolboxes`.
  unfoldable pub select_toolboxes :
      (fresh later : Fresh) → String → List String → String → Db → Result (List ActiveToolbox) × Db
  unfolding mode_of select_connection
  select_toolboxes fresh later session names text db = elim (mode_of text) [
    | none ↦ (err invalid_selection_mode, db)
    | some mode ↦ then_run (create_session k fresh (some session) "generic" db) λ _ db₁.
        then_run (transaction db₁ (select_connection fresh.toolbox session names text mode db₁))
          λ _ db₂. active_toolboxes later session db₂
  ]

  -- The transaction of `Kernel.reset_toolboxes`.
  unfoldable pub reset_connection : (uuid session : String) → Db → Result (List String × Db)
  unfolding session_default_id replace_selection
  reset_connection uuid session db = do
    (default, db₁) ← session_default_id db uuid session
    db₂ ← replace_selection db₁ session (default ∷ [])
    (_, db₃) ←
        append_event_connection session "toolbox_selection_changed"
          (Payload.selection_changed "default" (selection_ids db session) (default ∷ [])) no_refs
          db₂
    ok (default ∷ [], db₃)

  -- `Kernel.reset_toolboxes`
  unfoldable pub reset_toolboxes :
      (fresh later : Fresh) → String → Db → Result (List ActiveToolbox) × Db
  unfolding reset_connection
  reset_toolboxes fresh later session db =
      then_run (create_session k fresh (some session) "generic" db) λ _ db₁.
        then_run (transaction db₁ (reset_connection fresh.toolbox session db₁))
          λ _ db₂. active_toolboxes later session db₂

  -- The reads of `Kernel.snapshot_scope` after `create_session`.
  unfoldable pub scope_of_session : Db → String → Result Scope
  scope_of_session db session = do
    -- the source asserts that the row is there
    s ← some_or (find (session_with_id session) db.sessions) unknown_session
    elim (selection_ids db session) [
      | [] ↦ err empty_selection
      | i ∷ is ↦
          ok (record { session_id = session; toolbox_ids = i ∷ is; cwd = cwd_or s.cwd k.cwd })
    ]

  -- `Kernel.snapshot_scope`
  unfoldable pub snapshot_scope : Fresh → String → Db → Result Scope × Db
  unfolding scope_of_session
  snapshot_scope fresh session db =
      then_run (create_session k fresh (some session) "generic" db)
        λ _ db₁. (scope_of_session db₁ session, db₁)

  -- `Kernel._scope`; the second uuids are for the call of `snapshot_scope`.
  unfoldable pub resolve_scope :
      (fresh later : Fresh)
      → (session_id : Option String) → (scope : Option Scope) → Db
      → Result Scope × Db
  resolve_scope fresh later session_id (some s) db = (ok s, db)
  resolve_scope fresh later (some session) none db =
      then_run (create_session k fresh (some session) "generic" db)
        λ identifier db₁. snapshot_scope later identifier db₁
  resolve_scope fresh later none none db =
      then_run (transaction db (ensure_cwd_default k db fresh.toolbox k.cwd)) λ toolbox db₁.
        (ok (record { session_id = "host"; toolbox_ids = toolbox ∷ []; cwd = k.cwd }), db₁)
