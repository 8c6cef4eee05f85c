-- ===== src/Events.antt =====
-- src/mechagnome/kernel.py: the event log of a session, `append_event`, `_append_event_connection`,
-- `latest_event_sequence`, `_latest_completed_sequence` and the page that `read_session` returns.
pub mod Gapless
pub mod Paging
use mechagnome.Base.{
  ℕ, zero, suc, ◌+◌, ◌-◌, ◌≤◌, ◌<◌, min, max, String, ◌≡◌, refl, sym, ap, ◌∙◌, ◌≢◌, ◌↔◌, ◌⊎◌, inl,
  inr, Bool, true, false, not, ◌&&◌, ◌||◌, Option, none, some, List, [], ◌∷◌, ◌++◌, map, arith, ltb,
  leb, ◌==◌, nat_eq, string_eq, beq_refl, eq_of_beq, ne_of_beq, beq_of_ne, beq_sym, if◌then◌else◌,
  Bool-cases, Option-cases,
}
use mechagnome.Base.Rows.{
  find, where_rows, delete_rows, update_rows, max_of, length, is_some, or_else, find-append,
  find_sound, find-delete_other, find-delete_self, find-update, find-le-max_of, find_above_max_of,
  max_of-append, where_rows-append,
}
use mechagnome.Outcome.{
  Error, Result, ok, err, ◌>>=◌, ◌>>◌, require, some_or, is_unknown_tool, transaction, then_run,
  >>=-eq-ok, invalid_toolbox_name, toolbox_exists, unknown_toolbox, invalid_session_kind,
  invalid_session_origin, unknown_session, invalid_session_context, invalid_session,
  invalid_session_metadata, session_access_denied, invalid_annotation_revision,
  session_annotation_conflict, invalid_selection_mode, empty_selection, invalid_name,
  invalid_description, invalid_schema, invalid_source, missing_main, sync_main, invalid_main,
  invalid_write, invalid_namespace, core_schema_pinned, core_tool_required, unknown_tool,
  unknown_version, last_version, no_rollback, stale_base_version, not_json, invalid_input,
  max_depth, max_calls, integrity_error,
}
use mechagnome.Schema.{
  Toolbox, CwdDefault, Lineage, Namespace, Version, Binding, Session, SessionToolbox, Payload,
  Event, Db, blank, toolbox_with_id, toolbox_with_name, default_of_cwd, default_to_toolbox,
  lineage_with_id, lineage_named, version_with_id, version_numbered, version_of, binding_named,
  binding_to, session_with_id, selected_by, event_of, has_toolbox, has_session, has_version,
  has_lineage, events_of,
}
use mechagnome.Schema.Insert.{
  insert_toolbox, put_cwd_default, insert_lineage, insert_version, bind_rows, put_binding,
  insert_binding, delete_version, insert_namespaces, replace_namespaces, insert_session,
  insert_selection, insert_event, null_or, context_fits, same_text, is_null, known_kind,
}
use mechagnome.Schema.Host.{
  Json, MainDef, BootstrapTool, Host, Kernel, core_names, contains, is_core, core_schema,
}

-- The keyword arguments of `append_event`.
pub record Refs : Type 0 where
  pub call_id : Option String
  pub parent_call_id : Option String
  pub toolbox_id : Option String
  pub tool_name : Option String
  pub tool_version : Option ℕ
  pub tool_version_id : Option ℕ

abbrev pub no_refs : Refs
no_refs = record {
  call_id = none;
  parent_call_id = none;
  toolbox_id = none;
  tool_name = none;
  tool_version = none;
  tool_version_id = none;
}

abbrev pub seq_of : Event → ℕ
seq_of e = e.seq

abbrev pub event_with : String → ℕ → String → Payload → Refs → Event
event_with session n kind payload refs = record {
  session_id = session;
  seq = n;
  kind = kind;
  call_id = refs.call_id;
  parent_call_id = refs.parent_call_id;
  toolbox_id = refs.toolbox_id;
  tool_name = refs.tool_name;
  tool_version = refs.tool_version;
  tool_version_id = refs.tool_version_id;
  payload = payload;
}

-- `SELECT COALESCE(MAX(seq), 0) ... WHERE session_id = ?`
unfoldable pub last_seq : Db → String → ℕ
last_seq db session = max_of seq_of (events_of db session)

-- `Kernel._append_event_connection`, with a payload that `_json` accepts.
unfoldable pub append_event_connection : String → String → Payload → Refs → Db → Result (ℕ × Db)
append_event_connection session kind payload refs db = do
  db' ← insert_event db (event_with session (last_seq db session + 1) kind payload refs)
  ok (last_seq db session + 1, db')

-- `Kernel.append_event`; `text` is what `json.dumps(payload)` returns, or `none` if it raises.
unfoldable pub append_event : String → String → Option String → Refs → Db → Result ℕ × Db
unfolding append_event_connection
append_event session kind text refs db =
    transaction db
      (do t ← some_or text not_json; append_event_connection session kind (Payload.json t) refs db)

-- `Kernel.latest_event_sequence`
unfoldable pub latest_event_sequence : Db → String → Result ℕ
latest_event_sequence db session = do
  require (has_session db session) unknown_session
  ok (last_seq db session)

abbrev pub is_completed : Event → Bool
is_completed e = e.kind == "final" || e.kind == "cancelled"

-- `Kernel._latest_completed_sequence`
unfoldable pub latest_completed : Db → String → ℕ
latest_completed db session =
    max_of seq_of (where_rows (λ e. event_of session e && is_completed e) db.events)

-- `Kernel.latest_completed_sequence`
unfoldable pub latest_completed_sequence : Db → String → Result ℕ
latest_completed_sequence db session = do
  require (has_session db session) unknown_session
  ok (latest_completed db session)

-- ORDER BY seq
unfoldable pub insert_by_seq : Event → List Event → List Event
insert_by_seq e [] = e ∷ []
insert_by_seq e (f ∷ fs) =
    let rest = insert_by_seq e fs in if leb e.seq f.seq then e ∷ f ∷ fs else f ∷ rest

unfoldable pub sort_by_seq : List Event → List Event
unfolding insert_by_seq
sort_by_seq [] = []
sort_by_seq (e ∷ es) = insert_by_seq e (sort_by_seq es)

abbrev pub take {ℓ} : {A : Type ℓ} → ℕ → List A → List A
take zero xs = []
take (suc n) [] = []
take (suc n) (x ∷ xs) = x ∷ take n xs

-- `events[-1]["seq"]`, if there is one
abbrev pub last_seq_of : List Event → Option ℕ
last_seq_of [] = none
last_seq_of (e ∷ []) = some e.seq
last_seq_of (e ∷ f ∷ es) = last_seq_of (f ∷ es)

-- The events and `next_after` of `Kernel.read_session`. A negative bound of Python counts as 0.
pub record Page : Type 0 where
  pub events : List Event
  pub next_after : Option ℕ

-- `min(100, max(1, limit))`
abbrev pub page_limit : ℕ → ℕ
page_limit limit = min 100 (max 1 limit)

unfoldable pub page_of : List Event → (after limit : ℕ) → Page
unfolding sort_by_seq
page_of events after limit =
    let rows =
      take (suc (page_limit limit)) (sort_by_seq (where_rows (λ e. ltb after e.seq) events)) in
    let page = take (page_limit limit) rows in
    record {
      events = page;
      next_after = if ltb (page_limit limit) (length rows) then last_seq_of page else none;
    }

-- The part of `Kernel.read_session` below the session's metadata.
unfoldable pub read_session : Db → String → (after limit : ℕ) → Result Page
unfolding page_of
read_session db session after limit = do
  require (has_session db session) unknown_session
  ok (page_of (events_of db session) after limit)
