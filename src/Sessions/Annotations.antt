-- ===== src/Sessions/Annotations.antt =====
-- src/mechagnome/kernel.py, `_normalize_session_metadata` and `_update_session_metadata`: the title and
-- the description of a session, with the revision that counts their changes.
pub mod Values
pub mod Revisions
use mechagnome.Base.{
  ℕ, zero, suc, ◌+◌, String, ◌≡◌, refl, sym, ap, ◌∙◌, inl, inr, Bool, true, false, not, ◌&&◌, ◌||◌,
  Option, none, some, List, [], ◌∷◌, ltb, ◌==◌, nat_eq, string_eq, beq_refl, if◌then◌else◌, arith,
  Bool-cases,
}
use mechagnome.Base.Rows.{find, update_rows, where_rows, length, find-update, find_sound}
use mechagnome.Outcome.{
  Result, ok, err, ◌>>=◌, ◌>>◌, require, some_or, transaction, >>=-eq-ok, invalid_session_metadata,
  session_access_denied, session_annotation_conflict, unknown_session,
}
use mechagnome.Schema.{Session, Payload, Db, session_with_id}
use mechagnome.Names.{codes}
use mechagnome.Events.{no_refs, append_event_connection}
use mechagnome.Events.Gapless.{append_inv}
use mechagnome.Sessions.Lineage.{Metadata, session_metadata, root_session_id}

pub record Change : Type 0 where
  pub field : String
  pub value : Option String

-- the bytes of one character in UTF-8
abbrev pub utf8_size : ℕ → ℕ
utf8_size c = if ltb c 128 then 1 else if ltb c 2048 then 2 else if ltb c 65536 then 3 else 4

abbrev pub utf8_length : List ℕ → ℕ
utf8_length [] = 0
utf8_length (c ∷ cs) = utf8_size c + utf8_length cs

-- `_SESSION_METADATA_LIMITS`
abbrev pub limit_of : String → Option ℕ
limit_of field =
    if field == "title" then some 256 else if field == "description" then some 4096 else none

abbrev pub is_too_long : Change → Bool
is_too_long c = elim (limit_of c.field) [
  | none ↦ true
  | some limit ↦ elim c.value [ none ↦ false | some text ↦ ltb limit (utf8_length (codes text)) ]
]

abbrev pub all_fit : List Change → Bool
all_fit [] = true
all_fit (c ∷ cs) = not (is_too_long c) && all_fit cs

-- `_normalize_session_metadata`, for a dictionary of texts and nulls: an unknown field, a value
-- that is too long and an empty dictionary all have the same code.
unfoldable pub normalize_metadata : List Change → Result (List Change)
normalize_metadata [] = err invalid_session_metadata
normalize_metadata (c ∷ cs) = if all_fit (c ∷ cs) then ok (c ∷ cs) else err invalid_session_metadata

abbrev pub value_of : Session → String → Option String
value_of s field = if field == "title" then s.title else s.description

abbrev pub same_value : Option String → Option String → Bool
same_value none none = true
same_value none (some b) = false
same_value (some a) none = false
same_value (some a) (some b) = a == b

-- UPDATE sessions SET {field} = ?, annotation_revision = ?
abbrev pub edit : Change → ℕ → Session → Session
edit c revision s =
    if c.field == "title"
    then record s { title = c.value; annotation_revision = revision }
    else record s { description = c.value; annotation_revision = revision }

-- The session whose fields are set, and who sets them.
pub record Edit : Type 0 where
  pub session_id : String
  pub actor_session_id : String
  pub actor_call_id : Option String

-- The payload of `session_annotation_changed`; `row` is the row before the loop.
abbrev pub change_event : Edit → Session → Change → ℕ → Payload
change_event e row c revision =
    Payload.annotation_changed c.field (value_of row c.field) c.value revision e.actor_session_id
      e.actor_call_id

abbrev pub edit_sessions : Edit → Change → ℕ → Db → Db
edit_sessions e c revision db = record db {
  sessions = update_rows (session_with_id e.session_id) (edit c revision) db.sessions;
}

-- The loop over `changed`, from the given revision.
unfoldable pub apply_changes : Edit → (row : Session) → ℕ → List Change → Db → Result Db
apply_changes e row revision [] db = ok db
apply_changes e row revision (c ∷ cs) db = do
  (_, db') ←
      append_event_connection e.session_id "session_annotation_changed"
        (change_event e row c (revision + 1)) no_refs (edit_sessions e c (revision + 1) db)
  apply_changes e row (revision + 1) cs db'

abbrev pub fits_revision : Option ℕ → ℕ → Bool
fits_revision none actual = true
fits_revision (some expected) actual = expected == actual

abbrev pub or_zero : Option ℕ → ℕ
or_zero none = 0
or_zero (some n) = n

-- `[... for field, value in normalized.items() if row[field] != value]`
abbrev pub changed_fields : Session → List Change → List Change
changed_fields row changes =
    where_rows (λ (c : Change). not (same_value (value_of row c.field) c.value)) changes

-- The transaction of `_update_session_metadata`.
unfoldable pub update_connection : Edit → List Change → Option ℕ → Db → Result (Metadata × Db)
unfolding apply_changes
update_connection e changes expected db = do
  target_root ← root_session_id db e.session_id
  caller_root ← root_session_id db e.actor_session_id
  require (target_root == caller_root) session_access_denied
  row ← some_or (find (session_with_id e.session_id) db.sessions) unknown_session
  require (fits_revision expected row.annotation_revision)
      (session_annotation_conflict (or_zero expected) row.annotation_revision)
  db' ← apply_changes e row row.annotation_revision (changed_fields row changes) db
  m ← session_metadata db' e.session_id
  ok (m, db')

-- `Kernel._update_session_metadata`; an expected revision is an integer that is not negative.
unfoldable pub update_session_metadata : Edit → List Change → Option ℕ → Db → Result Metadata × Db
unfolding normalize_metadata update_connection
update_session_metadata e changes expected db =
    transaction db
      (do normalized ← normalize_metadata changes; update_connection e normalized expected db)
