-- ===== src/Schema/Insert.antt =====
-- The inserts and deletes of kernel.py, with the constraints of `Kernel._create_schema`, foreign
-- keys on. A violated constraint is `sqlite3.IntegrityError`. `lastrowid` of an INTEGER PRIMARY
-- KEY is one more than the largest row id.
use mechagnome.Base.{
  ℕ, suc, String, Bool, true, ◌&&◌, ◌||◌, not, Option, none, some, List, [], ◌∷◌, ◌++◌, ◌==◌,
  nat_eq, string_eq, if◌then◌else◌,
}
use mechagnome.Base.Rows.{find, delete_rows, update_rows, max_of, is_some}
use mechagnome.Outcome.{Result, ok, err, integrity_error}
use mechagnome.Schema.Tables.{
  Toolbox, CwdDefault, Lineage, Namespace, Version, Binding, Session, SessionToolbox, Event, Db,
  toolbox_with_id, toolbox_with_name, default_of_cwd, lineage_named, version_with_id,
  version_numbered, binding_named, binding_to, has_toolbox, has_session, has_version, has_lineage,
}

-- A nullable foreign key.
abbrev pub null_or : {A : Type 0} → (A → Bool) → Option A → Bool
null_or p none = true
null_or p (some a) = p a

unfoldable pub insert_toolbox : Db → Toolbox → Result Db
insert_toolbox db t =
    if is_some (find (toolbox_with_id t.id) db.toolboxes)
      || is_some (find (toolbox_with_name t.name) db.toolboxes)
    then err integrity_error
    else ok (record db { toolboxes = db.toolboxes ++ (t ∷ []) })

-- INSERT INTO cwd_defaults ... ON CONFLICT(cwd) DO UPDATE; `toolbox_id` is UNIQUE.
unfoldable pub put_cwd_default : Db → String → String → Result Db
put_cwd_default db c toolbox =
    let elsewhere = λ (d : CwdDefault). d.toolbox_id == toolbox && not (d.cwd == c) in
    if is_some (find elsewhere db.cwd_defaults) || not (has_toolbox db toolbox)
    then err integrity_error
    else ok (record db {
      cwd_defaults =
          if is_some (find (default_of_cwd c) db.cwd_defaults)
          then update_rows (default_of_cwd c) (λ d. record d { toolbox_id = toolbox })
              db.cwd_defaults
          else db.cwd_defaults ++ (record { cwd = c; toolbox_id = toolbox } ∷ []);
    })

-- INSERT INTO tool_lineages: the new id too.
unfoldable pub insert_lineage : Db → String → String → Result (ℕ × Db)
insert_lineage db toolbox name =
    let i = suc (max_of (λ (l : Lineage). l.id) db.lineages) in
    if is_some (find (lineage_named toolbox name) db.lineages) || not (has_toolbox db toolbox)
    then err integrity_error
    else ok (
      i,
      record db {
        lineages = db.lineages ++ (record { id = i; toolbox_id = toolbox; name = name } ∷ []);
      },
    )

-- INSERT INTO tool_versions: the new id too.
unfoldable pub insert_version :
    Db → (lineage version : ℕ) (description schema_json source : String) → Result (ℕ × Db)
insert_version db lineage version description schema_json source =
    let i = suc (max_of (λ (v : Version). v.id) db.versions) in
    if is_some (find (version_numbered lineage version) db.versions) || not (has_lineage db lineage)
    then err integrity_error
    else ok (
      i,
      record db {
        versions =
            db.versions
            ++ (record {
              id = i;
              lineage_id = lineage;
              version = version;
              description = description;
              schema_json = schema_json;
              source = source;
            }
                ∷ []);
      },
    )

-- The rows after INSERT INTO bindings ... ON CONFLICT(toolbox_id, name) DO UPDATE.
unfoldable pub bind_rows : String → String → ℕ → List Binding → List Binding
bind_rows toolbox name i rows =
    if is_some (find (binding_named toolbox name) rows)
    then update_rows (binding_named toolbox name) (λ b. record b { tool_version_id = i }) rows
    else rows ++ (record { toolbox_id = toolbox; name = name; tool_version_id = i } ∷ [])

unfoldable pub put_binding : Db → String → String → ℕ → Result Db
put_binding db toolbox name i =
    if has_toolbox db toolbox && has_version db i
    then ok (record db { bindings = bind_rows toolbox name i db.bindings })
    else err integrity_error

-- INSERT INTO bindings, with no upsert
unfoldable pub insert_binding : Db → String → String → ℕ → Result Db
insert_binding db toolbox name i =
    if is_some (find (binding_named toolbox name) db.bindings)
    then err integrity_error
    else put_binding db toolbox name i

-- DELETE FROM tool_versions: refused while a binding or an event refers to the row.
unfoldable pub delete_version : Db → ℕ → Result Db
delete_version db i =
    if is_some (find (binding_to i) db.bindings)
      || is_some (
          find (λ (e : Event). elim e.tool_version_id [ none ↦ Bool.false | some j ↦ j == i ])
            db.events)
    then err integrity_error
    else ok (record db { versions = delete_rows (version_with_id i) db.versions })

abbrev pub namespace_of : ℕ → Namespace → Bool
namespace_of lineage n = n.lineage_id == lineage

abbrev pub namespace_at : ℕ → String → Namespace → Bool
namespace_at lineage path n = n.lineage_id == lineage && n.path == path

unfoldable pub insert_namespaces : Db → ℕ → List String → Result Db
insert_namespaces db lineage [] = ok db
insert_namespaces db lineage (path ∷ paths) =
    if is_some (find (namespace_at lineage path) db.namespaces) || not (has_lineage db lineage)
    then err integrity_error
    else insert_namespaces
        (record db {
          namespaces = db.namespaces ++ (record { lineage_id = lineage; path = path } ∷ []);
        })
        lineage paths

-- `Kernel._replace_namespaces`
unfoldable pub replace_namespaces : Db → ℕ → List String → Result Db
replace_namespaces db lineage paths =
    insert_namespaces (record db { namespaces = delete_rows (namespace_of lineage) db.namespaces })
      lineage paths

abbrev pub is_null : {A : Type 0} → Option A → Bool
is_null none = true
is_null (some a) = Bool.false

abbrev pub same_text : Option String → Option String → Bool
same_text none none = true
same_text (some a) (some b) = a == b
same_text _ _ = Bool.false

abbrev pub known_kind : String → Bool
known_kind k = k == "generic" || k == "conversation" || k == "completion"

-- The CHECKs of `sessions`, which the trigger `sessions_context_valid` repeats.
unfoldable pub context_fits : Session → Bool
context_fits s =
    (if is_null s.context_source_session_id
      then is_null s.context_through_seq
      else not (is_null s.context_through_seq))
    && (is_null s.context_source_session_id
        || same_text s.context_source_session_id s.parent_session_id)

-- INSERT INTO sessions. The foreign keys are checked at the end of the statement, when the row itself
-- is there.
unfoldable pub insert_session : Db → Session → Result Db
insert_session db s =
    let db' = record db { sessions = db.sessions ++ (s ∷ []) } in
    if not (has_session db s.id)
      && null_or (has_session db') s.parent_session_id
      && null_or (has_session db') s.origin_session_id
      && null_or (has_session db') s.context_source_session_id
      && known_kind s.kind
      && context_fits s
    then ok db'
    else err integrity_error

-- `executemany` over `enumerate(toolbox_ids)`; `position` is the counter.
unfoldable pub insert_selection : Db → String → ℕ → List String → Result Db
insert_selection db session position [] = ok db
insert_selection db session position (t ∷ ts) =
    let taken = λ (s : SessionToolbox).
      s.session_id == session && (s.position == position || s.toolbox_id == t) in
    if is_some (find taken db.session_toolboxes)
      || not (has_session db session)
      || not (has_toolbox db t)
    then err integrity_error
    else insert_selection
        (record db {
          session_toolboxes =
              db.session_toolboxes
              ++ (record { session_id = session; position = position; toolbox_id = t } ∷ []);
        })
        session (suc position) ts

-- INSERT INTO events
unfoldable pub insert_event : Db → Event → Result Db
insert_event db e =
    if is_some (find (λ (o : Event). o.session_id == e.session_id && o.seq == e.seq) db.events)
      || not (has_session db e.session_id)
      || not (null_or (has_toolbox db) e.toolbox_id)
      || not (null_or (has_version db) e.tool_version_id)
    then err integrity_error
    else ok (record db { events = db.events ++ (e ∷ []) })
