-- ===== src/Sessions/Lineage.antt =====
-- src/mechagnome/kernel.py, `_root_session_id`, `session_metadata`, `_nearest_conversation_session`, and
-- src/mechagnome/isolation.py, `_is_owner_or_ancestor`: walks along `parent_session_id`. Each walk
-- takes one unit of fuel for each session of the database.
pub mod Rooted
use mechagnome.Base.{
  ℕ, zero, suc, String, Bool, true, false, none, some, List, ◌==◌, nat_eq, string_eq, if◌then◌else◌,
}
use mechagnome.Base.Rows.{find, length}
use mechagnome.Outcome.{Result, ok, err, ◌>>=◌, some_or, unknown_session, invalid_session, diverges}
use mechagnome.Schema.{Session, Db, session_with_id}

-- The recursive query of `Kernel._root_session_id`. A missing parent row ends it with no root.
unfoldable pub root_from : ℕ → List Session → String → Result String
root_from zero rows session = err diverges
root_from (suc fuel) rows session = elim (find (session_with_id session) rows) [
  | none ↦ err unknown_session
  | some s ↦ elim s.parent_session_id [ none ↦ ok s.id | some p ↦ root_from fuel rows p ]
]

-- `Kernel._root_session_id`
unfoldable pub root_session_id : Db → String → Result String
root_session_id db session = root_from (suc (length db.sessions)) db.sessions session

pub record Metadata : Type 0 where
  pub row : Session
  pub root_session_id : String

-- `Kernel._session_metadata_connection`
unfoldable pub session_metadata : Db → String → Result Metadata
session_metadata db session = do
  s ← some_or (find (session_with_id session) db.sessions) unknown_session
  root ← root_session_id db session
  ok (record { row = s; root_session_id = root })

-- The loop of `Kernel._nearest_conversation_session`.
unfoldable pub nearest_from : ℕ → Db → String → Result String
nearest_from zero db current = err diverges
nearest_from (suc fuel) db current = elim (session_metadata db current) [
  | err e ↦ err e
  | ok m ↦ if m.row.kind == "conversation" then ok current else elim m.row.parent_session_id [
    | none ↦ err invalid_session
    | some p ↦ nearest_from fuel db p
  ]
]

-- `Kernel._nearest_conversation_session`
unfoldable pub nearest_conversation_session : Db → String → Result String
nearest_conversation_session db session = nearest_from (suc (length db.sessions)) db session

-- The loop of `IsolatedToolRunner._is_owner_or_ancestor`.
unfoldable pub ancestor_from : ℕ → Db → (candidate current : String) → Result Bool
ancestor_from zero db candidate current = err diverges
ancestor_from (suc fuel) db candidate current = elim (current == candidate) [
  | true ↦ ok true
  | false ↦ elim (session_metadata db current) [
    | err e ↦ ok false
    | ok m ↦ elim m.row.parent_session_id [
      | none ↦ ok false
      | some p ↦ ancestor_from fuel db candidate p
    ]
  ]
]

-- `IsolatedToolRunner._is_owner_or_ancestor`
unfoldable pub is_owner_or_ancestor : Db → (candidate owner : String) → Result Bool
is_owner_or_ancestor db candidate owner =
    ancestor_from (suc (length db.sessions)) db candidate owner
