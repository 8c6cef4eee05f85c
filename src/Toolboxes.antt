-- ===== src/Toolboxes.antt =====
-- src/mechagnome/kernel.py: the registry of toolboxes, its working-directory defaults, and the seeding
-- and refreshing of the code-shipped tools. `uuid` stands for what `uuid.uuid4().hex` returns.
use mechagnome.Names.{is_toolbox_name}
use mechagnome.Names.Defaults.{default_name}
use mechagnome.Base.{
  String, not, ◌&&◌, Option, none, some, List, [], ◌∷◌, ◌==◌, nat_eq, string_eq, if◌then◌else◌,
}
use mechagnome.Base.Rows.{find, delete_rows, update_rows, is_some}
use mechagnome.Outcome.{
  Result, ok, err, ◌>>=◌, ◌>>◌, require, some_or, transaction, invalid_toolbox_name, toolbox_exists,
  unknown_toolbox, not_json, integrity_error,
}
use mechagnome.Schema.{
  Toolbox, Lineage, Db, toolbox_with_id, toolbox_with_name, default_of_cwd, default_to_toolbox,
  lineage_named,
}
use mechagnome.Schema.Insert.{
  insert_toolbox, put_cwd_default, insert_lineage, insert_version, insert_binding,
  insert_namespaces,
}
use mechagnome.Schema.Host.{Host, Kernel, core_names}

-- `Kernel._toolbox_id`
unfoldable pub toolbox_id : Db → String → Result String
toolbox_id db name = do
  t ← some_or (find (toolbox_with_name name) db.toolboxes) unknown_toolbox
  ok t.id

module _ (k : Kernel) where
  -- One round of the loop of `Kernel._seed_missing_core`.
  unfoldable pub seed_tool : Db → String → String → Result Db
  seed_tool db toolbox name =
      if is_some (find (lineage_named toolbox name) db.lineages) then ok db else do
        (lineage, db₁) ← insert_lineage db toolbox name
        schema ← some_or (k.dumps (k.shipped name).input_schema) not_json
        (version, db₂) ←
            insert_version db₁ lineage 1 (k.shipped name).description schema (k.shipped name).source
        db₃ ← insert_binding db₂ toolbox name version
        insert_namespaces db₃ lineage ("core" ∷ [])

  -- `Kernel._seed_missing_core`
  unfoldable pub seed_missing_core : List String → Db → String → Result Db
  unfolding seed_tool
  seed_missing_core [] db toolbox = ok db
  seed_missing_core (name ∷ names) db toolbox = do
    db' ← seed_tool db toolbox name
    seed_missing_core names db' toolbox

  -- `Kernel._create_toolbox_connection`
  unfoldable pub create_toolbox_connection : Db → (uuid name : String) → Result (String × Db)
  create_toolbox_connection db uuid name = do
    require (is_toolbox_name name) invalid_toolbox_name
    db₁ ← elim (insert_toolbox db (record { id = uuid; name = name })) [
      | ok db' ↦ ok db'
      | err _ ↦ err toolbox_exists
    ]
    db₂ ← seed_missing_core core_names db₁ uuid
    ok (uuid, db₂)

  -- `Kernel._ensure_cwd_default`
  unfoldable pub ensure_cwd_default : Db → (uuid cwd : String) → Result (String × Db)
  ensure_cwd_default db uuid cwd = elim (find (default_of_cwd cwd) db.cwd_defaults) [
    | some d ↦ ok (d.toolbox_id, db)
    | none ↦ elim db.legacy_fallback [
      | some toolbox ↦ ok (toolbox, db)
      | none ↦ do
        (toolbox, db₁) ← create_toolbox_connection db uuid (default_name k.host cwd)
        -- a plain INSERT: the key was just looked for
        db₂ ← put_cwd_default db₁ cwd toolbox
        ok (toolbox, db₂)
    ]
  ]

  -- `Kernel.create_toolbox`; `cwd` is the canonical directory.
  unfoldable pub create_toolbox :
      (uuid name : String) (cwd : Option String) → Db → Result String × Db
  create_toolbox uuid name cwd db = transaction db (do
    (toolbox, db₁) ← create_toolbox_connection db uuid name
    db₂ ← elim cwd [ none ↦ ok db₁ | some c ↦ put_cwd_default db₁ c toolbox ]
    ok (toolbox, db₂))

-- UPDATE toolboxes SET name = ? WHERE id = ?; `name` is UNIQUE.
unfoldable pub update_name : Db → (toolbox new_name : String) → Result Db
update_name db toolbox new_name =
    let other = λ (t : Toolbox). t.name == new_name && not (t.id == toolbox) in
    if is_some (find other db.toolboxes)
    then err integrity_error
    else ok (record db {
      toolboxes =
          update_rows (toolbox_with_id toolbox) (λ t. record t { name = new_name }) db.toolboxes;
    })

-- `Kernel.rename_toolbox`
unfoldable pub rename_toolbox : (name new_name : String) → Db → Result String × Db
unfolding toolbox_id update_name
rename_toolbox name new_name db = transaction db (do
  require (is_toolbox_name new_name) invalid_toolbox_name
  toolbox ← toolbox_id db name
  db' ← elim (update_name db toolbox new_name) [ ok db' ↦ ok db' | err _ ↦ err toolbox_exists ]
  ok (toolbox, db'))

-- `Kernel.set_cwd_default`; `cwd` is the canonical directory.
unfoldable pub set_cwd_default : (name cwd : String) → Db → Result (Unit {0}) × Db
unfolding toolbox_id
set_cwd_default name cwd db = transaction db (do
  toolbox ← toolbox_id db name
  db' ←
      put_cwd_default
        (record db { cwd_defaults = delete_rows (default_to_toolbox toolbox) db.cwd_defaults }) cwd
        toolbox
  ok (tt, db'))

-- The source's UPDATE for one shipped tool in `Kernel._refresh_core_defaults`.
unfoldable pub refresh_tool : Host → String → String → Db → Db
refresh_tool h name schema db = record db {
  versions =
      update_rows
        (λ v.
          v.version == 1
          && is_some (find (λ (l : Lineage). l.id == v.lineage_id && l.name == name) db.lineages))
        (λ v. record v {
          description = (h.shipped name).description;
          schema_json = schema;
          source = (h.shipped name).source;
        })
        db.versions;
}

-- `Kernel._refresh_core_defaults`
unfoldable pub refresh_core_defaults : Host → List String → Db → Result Db
unfolding refresh_tool
refresh_core_defaults h [] db = ok db
refresh_core_defaults h (name ∷ names) db = do
  schema ← some_or (h.dumps (h.shipped name).input_schema) not_json
  refresh_core_defaults h names (refresh_tool h name schema db)
