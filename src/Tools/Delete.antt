-- ===== src/Tools/Delete.antt =====
-- src/mechagnome/kernel.py, `delete_tool` and `rollback`.
use mechagnome.Base.{
  ℕ, String, Bool, false, ◌&&◌, Option, none, some, List, [], ◌∷◌, ltb, ◌==◌, nat_eq, string_eq,
  if◌then◌else◌,
}
use mechagnome.Base.Rows.{find, where_rows, delete_rows, update_rows, length, or_else}
use mechagnome.Outcome.{
  Result, ok, err, ◌>>=◌, ◌>>◌, require, some_or, is_unknown_tool, transaction, then_run,
  core_tool_required, unknown_version, last_version, no_rollback,
}
use mechagnome.Schema.{
  Lineage, Version, Binding, Payload, Event, Db, version_numbered, version_of, binding_named,
}
use mechagnome.Schema.Insert.{put_binding, delete_version, null_or}
use mechagnome.Schema.Host.{Kernel, is_core}
use mechagnome.Toolboxes.{toolbox_id}
use mechagnome.Sessions.Create.{Fresh, Scope, identifier_of}
use mechagnome.Sessions.Selection.{resolve_scope}
use mechagnome.Tools.Resolve.{ResolvedTool, find_binding, resolve_in, lineage_for_history}
use mechagnome.Tools.Write.{tool_refs, log_if}

-- ORDER BY version DESC LIMIT 1
unfoldable pub newest : List Version → Option Version
newest [] = none
newest (v ∷ vs) = elim (newest vs) [
  | none ↦ some v
  | some w ↦ if ltb v.version w.version then some w else some v
]

-- ORDER BY version ASC LIMIT 1
unfoldable pub oldest : List Version → Option Version
oldest [] = none
oldest (v ∷ vs) = elim (oldest vs) [
  | none ↦ some v
  | some w ↦ if ltb w.version v.version then some w else some v
]

abbrev pub below : ℕ → ℕ → Version → Bool
below lineage n v = v.lineage_id == lineage && ltb v.version n

abbrev pub above : ℕ → ℕ → Version → Bool
above lineage n v = v.lineage_id == lineage && ltb n v.version

-- The version that takes the place of a deleted active one.
unfoldable pub replacement : Db → (lineage version : ℕ) → Option Version
replacement db lineage n =
    or_else (newest (where_rows (below lineage n) db.versions))
      (oldest (where_rows (above lineage n) db.versions))

abbrev pub bound_to : Option Binding → ℕ → Bool
bound_to none i = false
bound_to (some b) i = b.tool_version_id == i

-- UPDATE bindings SET tool_version_id = ? WHERE toolbox_id = ? AND name = ?
unfoldable pub rebind : Db → (target name : String) → ℕ → Db
rebind db target name i = record db {
  bindings =
      update_rows (binding_named target name) (λ b. record b { tool_version_id = i }) db.bindings;
}

abbrev pub refers_to : ℕ → Event → Bool
refers_to i e = elim e.tool_version_id [ none ↦ false | some j ↦ j == i ]

-- UPDATE events SET tool_version_id = NULL WHERE tool_version_id = ?
unfoldable pub forget_version : Db → ℕ → Db
forget_version db i = record db {
  events = update_rows (refers_to i) (λ e. record e { tool_version_id = none }) db.events;
}

-- The branch on `active_row`: the database, and `rolled_back_to`.
unfoldable pub roll_back_active :
    Db → (target name : String) → (lineage : ℕ) → Version → Db × Option ℕ
unfolding replacement rebind
roll_back_active db target name lineage v =
    if bound_to (find_binding db target name) v.id
    then elim (replacement db lineage v.version) [
      | none ↦ (db, none)
      | some w ↦ (rebind db target name w.id, some w.version)
    ]
    else (db, none)

-- The toolbox of `delete_tool`: `toolbox` if it is given and not the empty text.
unfoldable pub delete_target : Db → String → Option String → List String → Result String
delete_target db name toolbox scope =
    if null_or (λ t. t == "") toolbox
    then (do tool ← resolve_in db name none scope; ok tool.toolbox_id)
    else toolbox_id db (identifier_of toolbox "")

-- The transaction of `delete_tool` for one version: `rolled_back_to`.
unfoldable pub delete_version_connection :
    String → ℕ → Option String → Option String → List String → Db → Result (Option ℕ × Db)
unfolding delete_target roll_back_active forget_version
delete_version_connection name version session toolbox scope db = do
  target ← delete_target db name toolbox scope
  tool ← resolve_in db name none (target ∷ [])
  v ← some_or (find (version_numbered tool.lineage_id version) db.versions) unknown_version
  require (ltb 1 (length (where_rows (version_of tool.lineage_id) db.versions))) last_version
  let (db₁, rolled_back_to) = roll_back_active db target name tool.lineage_id v
  db₂ ←
      log_if session "version_deleted" (Payload.version_deleted name version target rolled_back_to)
        (tool_refs none target name version none) (forget_version db₁ v.id)
  db₃ ← delete_version db₂ v.id
  ok (rolled_back_to, db₃)

-- The transaction of `delete_tool` for a binding: the version that was active.
unfoldable pub delete_binding_connection :
    String → Option String → Option String → List String → Db → Result (ℕ × Db)
unfolding delete_target
delete_binding_connection name session toolbox scope db = do
  target ← delete_target db name toolbox scope
  tool ← resolve_in db name none (target ∷ [])
  db₁ ←
      log_if session "binding_deleted" (Payload.binding_deleted name tool.version target)
        (tool_refs none target name tool.version (some tool.id))
        (record db { bindings = delete_rows (binding_named target name) db.bindings })
  ok (tool.version, db₁)

pub data Deleted : Type 0 where
  binding_of : (deleted_version : ℕ) → Deleted
  one_version : (rolled_back_to : Option ℕ) → Deleted

-- `name in CORE_NAMES and (version is None or version == 1)`
abbrev pub is_required : String → Option ℕ → Bool
is_required name none = is_core name
is_required name (some n) = is_core name && n == 1

-- `Kernel.delete_tool`
unfoldable pub delete_tool :
    Kernel
    → (fresh later : Fresh) → (name : String) → (version : Option ℕ) → (session : Option String)
    → Option Scope
    → (toolbox : Option String) → Db
    → Result Deleted × Db
unfolding delete_version_connection delete_binding_connection
delete_tool k fresh later name version session scope toolbox db =
    if is_required name version
    then (err core_tool_required, db)
    else then_run (resolve_scope k fresh later session scope db) λ s db₁.
      transaction db₁ (elim version [
        | none ↦ do
          (n, db₂) ← delete_binding_connection name session toolbox s.toolbox_ids db₁
          ok (binding_of n, db₂)
        | some n ↦ do
          (back, db₂) ← delete_version_connection name n session toolbox s.toolbox_ids db₁
          ok (one_version back, db₂)
      ])

-- `Kernel.rollback`: the version that was active, if one was, and the one that is.
pub record Rollback : Type 0 where
  pub from_version : Option ℕ
  pub to_version : ℕ

abbrev pub current_of : Result ResolvedTool → Result (Option ResolvedTool)
current_of (ok tool) = ok (some tool)
current_of (err e) = if is_unknown_tool e then ok none else err e

abbrev pub version_number : Option ResolvedTool → Option ℕ
version_number none = none
version_number (some tool) = some tool.version

-- The toolbox, the lineage and the tool that is active now.
pub record Place : Type 0 where
  pub target : String
  pub lineage : Lineage
  pub current : Option ResolvedTool

unfoldable pub rollback_place : Db → String → Option String → List String → Result Place
rollback_place db name toolbox scope =
    if null_or (λ t. t == "") toolbox
    then (do
      tool ← resolve_in db name none scope
      lineage ← lineage_for_history db name scope (some tool.toolbox_name)
      ok (record { target = tool.toolbox_id; lineage = lineage; current = some tool }))
    else (do
      target ← toolbox_id db (identifier_of toolbox "")
      lineage ← lineage_for_history db name scope toolbox
      current ← current_of (resolve_in db name none (target ∷ []))
      ok (record { target = target; lineage = lineage; current = current }))

-- The transaction of `Kernel.rollback`.
unfoldable pub rollback_connection :
    String → ℕ → Option String → List String → Db → Result (Rollback × Db)
unfolding rollback_place
rollback_connection name version toolbox scope db = do
  place ← rollback_place db name toolbox scope
  v ← some_or (find (version_numbered place.lineage.id version) db.versions) no_rollback
  db' ← put_binding db place.target name v.id
  ok (record { from_version = version_number place.current; to_version = v.version }, db')

-- `Kernel.rollback`
unfoldable pub rollback :
    Kernel
    → (fresh later : Fresh) → (name : String) → (version : ℕ) → Option String
    → Option Scope
    → (toolbox : Option String) → Db
    → Result Rollback × Db
unfolding rollback_connection
rollback k fresh later name version session scope toolbox db =
    then_run (resolve_scope k fresh later session scope db)
      λ s db₁. transaction db₁ (rollback_connection name version toolbox s.toolbox_ids db₁)
