-- ===== src/Sessions/Create.antt =====
-- src/mechagnome/kernel.py, `create_session` and `create_child_session`.
pub mod Children
use mechagnome.Base.{
  ℕ, String, Bool, false, not, ◌&&◌, ◌||◌, Option, none, some, List, [], ◌∷◌, ◌==◌, nat_eq,
  string_eq, if◌then◌else◌,
}
use mechagnome.Base.Rows.{find, is_some}
use mechagnome.Outcome.{
  Result, ok, err, ◌>>=◌, ◌>>◌, require, transaction, invalid_session_kind, invalid_session_origin,
  unknown_session, invalid_session_context,
}
use mechagnome.Schema.{Session, Event, Db, selected_by, has_session}
use mechagnome.Schema.Insert.{insert_session, insert_selection, is_null, known_kind}
use mechagnome.Schema.Host.{Kernel}
use mechagnome.Events.{latest_completed}
use mechagnome.Toolboxes.{ensure_cwd_default}

-- What `uuid.uuid4().hex` returns, for a session and for a toolbox.
pub record Fresh : Type 0 where
  pub session : String
  pub toolbox : String

-- `InvocationScope`
pub record Scope : Type 0 where
  pub session_id : String
  pub toolbox_ids : List String
  pub cwd : String

-- A root session, as INSERT OR IGNORE INTO sessions (id, cwd, kind) makes it.
abbrev pub root_session : String → String → String → Session
root_session i cwd kind = record {
  id = i;
  cwd = some cwd;
  parent_session_id = none;
  kind = kind;
  origin_session_id = none;
  origin_call_id = none;
  context_source_session_id = none;
  context_through_seq = none;
  title = none;
  description = none;
  annotation_revision = 0;
}

-- `session_id or uuid.uuid4().hex`: the empty text is false.
unfoldable pub identifier_of : Option String → String → String
identifier_of none uuid = uuid
identifier_of (some s) uuid = if s == "" then uuid else s

module _ (k : Kernel) where
  -- The selection that a session without one gets.
  unfoldable pub ensure_selection : Db → String → String → Result Db
  ensure_selection db uuid identifier =
      if is_some (find (selected_by identifier) db.session_toolboxes) then ok db else do
        (default, db₁) ← ensure_cwd_default k db uuid k.cwd
        insert_selection db₁ identifier 0 (default ∷ [])

  -- The transaction of `Kernel.create_session`.
  unfoldable pub create_session_connection : Fresh → String → String → Db → Result (String × Db)
  unfolding ensure_selection
  create_session_connection fresh identifier kind db =
      let created = not (has_session db identifier) in
      do
        db₁ ← if created then insert_session db (root_session identifier k.cwd kind) else ok db
        db₂ ← ensure_selection db₁ fresh.toolbox identifier
        require (created || has_session db₂ identifier) unknown_session
        ok (identifier, db₂)

  -- `Kernel.create_session`
  unfoldable pub create_session : Fresh → Option String → String → Db → Result String × Db
  unfolding identifier_of create_session_connection
  create_session fresh session_id kind db =
      if known_kind kind
      then transaction db
          (create_session_connection fresh (identifier_of session_id fresh.session) kind db)
      else (err invalid_session_kind, db)

-- SQL's `=`: nothing equals NULL.
abbrev pub sql_eq : Option String → String → Bool
sql_eq none b = false
sql_eq (some a) b = a == b

abbrev is_terminal : Event → Bool
is_terminal e = e.kind == "call_succeeded" || e.kind == "call_failed"

-- Has the call ended, in this session?
unfoldable pub has_ended : Db → String → Option String → Bool
has_ended db session none = false
has_ended db session (some call) = is_some (
    find (λ (e : Event). e.session_id == session && (sql_eq e.call_id call && is_terminal e))
      db.events)

-- The query for the origin call: it has started, has not ended, and no call below it is open.
unfoldable pub is_active_leaf : Db → String → String → Bool
unfolding has_ended
is_active_leaf db session call =
    let started = λ (e : Event).
      e.session_id == session && (sql_eq e.call_id call && e.kind == "call_started") in
    let open_child = λ (e : Event).
      e.session_id == session
      && (sql_eq e.parent_call_id call
          && (e.kind == "call_started" && not (has_ended db session e.call_id))) in
    is_some (find started db.events)
    && (not (has_ended db session (some call)) && not (is_some (find open_child db.events)))

-- The optional arguments of `create_child_session`.
pub record ChildRequest : Type 0 where
  pub kind : String
  pub origin_scope : Option Scope
  pub origin_call_id : Option String
  pub context_source_session_id : Option String
  pub context_through_seq : Option ℕ

abbrev pub caller_of : Scope → Option Scope → Scope
caller_of parent none = parent
caller_of parent (some s) = s

-- The check of a fork's context inside the transaction.
unfoldable pub check_context : Db → Scope → Option String → Option ℕ → Result (Unit {0})
check_context db parent none through = ok tt
check_context db parent (some source) through = do
  require (source == parent.session_id) (invalid_session_context none)
  require (elim through [ none ↦ false | some n ↦ n == latest_completed db source ])
      (invalid_session_context (some (latest_completed db source)))

abbrev pub check_origin : Db → Scope → Option String → Result (Unit {0})
check_origin db caller none = ok tt
check_origin db caller (some call) =
    require (is_active_leaf db caller.session_id call) invalid_session_origin

abbrev pub child_session : String → Scope → ChildRequest → Session
child_session uuid parent r = record {
  id = uuid;
  cwd = some parent.cwd;
  parent_session_id = some parent.session_id;
  kind = r.kind;
  origin_session_id = elim r.origin_call_id [
    | none ↦ none
    | some _ ↦ some (caller_of parent r.origin_scope).session_id
  ];
  origin_call_id = r.origin_call_id;
  context_source_session_id = r.context_source_session_id;
  context_through_seq = r.context_through_seq;
  title = none;
  description = none;
  annotation_revision = 0;
}

-- The transaction of `Kernel.create_child_session`.
unfoldable pub create_child_connection : String → Scope → ChildRequest → Db → Result (String × Db)
unfolding check_context
create_child_connection uuid parent r db = do
  require (has_session db parent.session_id) unknown_session
  check_context db parent r.context_source_session_id r.context_through_seq
  check_origin db (caller_of parent r.origin_scope) r.origin_call_id
  db₁ ← insert_session db (child_session uuid parent r)
  db₂ ← insert_selection db₁ uuid 0 parent.toolbox_ids
  ok (uuid, db₂)

-- `Kernel.create_child_session`; the sequence is an integer that is not negative.
unfoldable pub create_child_session : String → Scope → ChildRequest → Db → Result String × Db
unfolding create_child_connection
create_child_session uuid parent r db =
    if not (known_kind r.kind)
    then (err invalid_session_kind, db)
    else if is_null r.context_source_session_id && not (is_null r.context_through_seq)
        || not (is_null r.context_source_session_id) && is_null r.context_through_seq
    then (err (invalid_session_context none), db)
    else transaction db (create_child_connection uuid parent r db)
