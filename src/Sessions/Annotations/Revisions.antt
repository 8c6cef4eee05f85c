-- ===== src/Sessions/Annotations/Revisions.antt =====
-- What an update of a session's title and description does to the rows of the sessions.
use mathlib.Core.Option
use mechagnome.Base.{
  ℕ, ◌+◌, String, ◌≡◌, refl, sym, ap, ◌∙◌, inl, inr, Bool, true, false, Option, none, some, List,
  [], ◌∷◌, ◌==◌, nat_eq, string_eq, beq_sym, eq_of_beq, if◌then◌else◌, arith, Bool-cases,
  Option-cases,
}
use mechagnome.Base.Rows.{find, length, find-update, find_sound}
use mechagnome.Outcome.{
  Error, Result, ok, require, some_or, >>=-eq-ok, session_access_denied, unknown_session,
}
use mechagnome.Schema.{Session, Db, session_with_id}
use mechagnome.Events.{no_refs, append_event_connection}
use mechagnome.Events.Gapless.{append_inv}
use mechagnome.Sessions.Lineage.{Metadata, session_metadata, root_session_id}
use mechagnome.Sessions.Annotations.{
  normalize_metadata, Change, Edit, edit, edit_sessions, change_event, apply_changes,
  changed_fields, fits_revision, update_connection,
}
use mechagnome.Sessions.Annotations.Values.{
  edited, asked, is_dict, edited-title, edited-description, asked-changed, all_fit-changed,
  normalized-all_fit,
}

same_id : (c : Change) (n : ℕ) (s : Session) → (edit c n s).id ≡ s.id
same_id c n s = elim (Bool-cases (c.field == "title")) [ inl t ↦ rw t refl | inr d ↦ rw d refl ]

-- One change, as it is seen from any session.
find-edit :
    (e : Edit) (c : Change) (n : ℕ) (db : Db) (other : String)
    → find (session_with_id other) (edit_sessions e c n db).sessions
      ≡ Option.map
          (λ (s : Session). if s.id == e.session_id then edit c n s else s)
          (find (session_with_id other) db.sessions)
find-edit e c n db other =
    find-update (session_with_id other) (session_with_id e.session_id) (edit c n)
      (λ s h. ap (λ (i : String). i == other) (same_id c n s)) db.sessions

find-edit_self :
    (e : Edit) (c : Change) (n : ℕ) (db : Db) (s : Session)
    → find (session_with_id e.session_id) db.sessions ≡ some s
    → find (session_with_id e.session_id) (edit_sessions e c n db).sessions ≡ some (edit c n s)
find-edit_self e c n db s found =
    find-edit e c n db e.session_id
    ∙ rw (found, Option.map, find_sound (session_with_id e.session_id) db.sessions s found) refl

appended_sessions :
    (e : Edit) (row : Session) (c : Change) (n : ℕ) (m : ℕ) (db db' : Db)
    → append_event_connection e.session_id "session_annotation_changed"
        (change_event e row c n)
        no_refs
        db
      ≡ ok (m, db')
    → db'.sessions ≡ db.sessions
appended_sessions e row c n m db db' h =
    ap (λ (d : Db). d.sessions)
      (append_inv db e.session_id _ (change_event e row c n) no_refs m db' h).1

apply_changes_self :
    (e : Edit) (row : Session) (n : ℕ) (cs : List Change) (db db' : Db) (s : Session)
    → apply_changes e row n cs db ≡ ok db'
    → find (session_with_id e.session_id) db.sessions ≡ some s
    → find (session_with_id e.session_id) db'.sessions ≡ some (edited cs n s)
unfolding apply_changes
apply_changes_self e row n [] db db' s h found = let same : db' ≡ db = ground arith in rw same found
apply_changes_self e row n (c ∷ cs) db db' s h found =
    let ((m, db₁), logged, rest) =
      >>=-eq-ok
        (append_event_connection e.session_id "session_annotation_changed"
          (change_event e row c (n + 1)) no_refs (edit_sessions e c (n + 1) db))
        (λ r. apply_changes e row (n + 1) cs r.1) h in
    let kept = appended_sessions e row c (n + 1) m (edit_sessions e c (n + 1) db) db₁ logged in
    apply_changes_self e row (n + 1) cs db₁ db' (edit c (n + 1) s) rest
      (ap (find (session_with_id e.session_id)) kept ∙ find-edit_self e c (n + 1) db s found)

find-edit_other :
    (e : Edit) (c : Change) (n : ℕ) (db : Db) (other : String)
    → (e.session_id == other) ≡ false
    → find (session_with_id other) (edit_sessions e c n db).sessions
      ≡ find (session_with_id other) db.sessions
find-edit_other e c n db other apart =
    elim (Option-cases (find (session_with_id other) db.sessions)) [
      | inl gone ↦ find-edit e c n db other ∙ rw (gone, Option.map) refl
      | inr (s, found) ↦
          let mine =
            eq_of_beq s.id other (find_sound (session_with_id other) db.sessions s found) in
          find-edit e c n db other
          ∙ rw (found, Option.map, mine, beq_sym other e.session_id, apart) refl
    ]

apply_changes_other :
    (e : Edit) (row : Session) (n : ℕ) (cs : List Change) (db db' : Db) (other : String)
    → (e.session_id == other) ≡ false
    → apply_changes e row n cs db ≡ ok db'
    → find (session_with_id other) db'.sessions ≡ find (session_with_id other) db.sessions
unfolding apply_changes
apply_changes_other e row n [] db db' other apart h =
    let same : db' ≡ db = ground arith in rw same refl
apply_changes_other e row n (c ∷ cs) db db' other apart h =
    let ((m, db₁), logged, rest) =
      >>=-eq-ok
        (append_event_connection e.session_id "session_annotation_changed"
          (change_event e row c (n + 1)) no_refs (edit_sessions e c (n + 1) db))
        (λ r. apply_changes e row (n + 1) cs r.1) h in
    let kept = appended_sessions e row c (n + 1) m (edit_sessions e c (n + 1) db) db₁ logged in
    apply_changes_other e row (n + 1) cs db₁ db' other apart rest
    ∙ ap (find (session_with_id other)) kept
    ∙ find-edit_other e c (n + 1) db other apart

edited-revision :
    (cs : List Change) (n : ℕ) (s : Session)
    → s.annotation_revision ≡ n
    → (edited cs n s).annotation_revision ≡ n + length cs
edited-revision [] n s h = omega (arith, h)
edited-revision (c ∷ cs) n s h = elim (Bool-cases (c.field == "title")) [
  | inl t ↦ omega (arith, edited-revision cs (n + 1) (edit c (n + 1) s) (rw t refl))
  | inr d ↦ omega (arith, edited-revision cs (n + 1) (edit c (n + 1) s) (rw d refl))
]

-- What a successful update did.
pub record Steps (e : Edit) (changes : List Change) (expected : Option ℕ) (db db' : Db)
    : Type 0 where
  root : String
  mine : root_session_id db e.session_id ≡ ok root
  theirs : root_session_id db e.actor_session_id ≡ ok root
  pub row : Session
  found : find (session_with_id e.session_id) db.sessions ≡ some row
  fits : fits_revision expected row.annotation_revision ≡ true
  pub applied : apply_changes e row row.annotation_revision (changed_fields row changes) db ≡ ok db'

required : (b : Bool) (e : Error) (u : Unit {0}) → require b e ≡ ok u → b ≡ true
required true e u h = refl
required false e u h = absurd (ground arith)

found_row : (o : Option Session) (e : Error) (s : Session) → some_or o e ≡ ok s → o ≡ some s
found_row none e s h = absurd (ground arith)
found_row (some t) e s h = ground arith

result_db :
    {x y : Metadata} {a b : Db} → ◌≡◌ {A = Result (Metadata × Db)} (ok (x, a)) (ok (y, b)) → a ≡ b
result_db h = ground arith

pub steps :
    (e : Edit) (changes : List Change) (expected : Option ℕ) (db : Db) (m : Metadata) (db' : Db)
    → update_connection e changes expected db ≡ ok (m, db')
    → Steps e changes expected db db'
unfolding update_connection
steps e changes expected db m db' h =
    let (root, mine, h₁) = >>=-eq-ok (root_session_id db e.session_id) _ h in
    let (caller, theirs, h₂) = >>=-eq-ok (root_session_id db e.actor_session_id) _ h₁ in
    let (u, same, h₃) = >>=-eq-ok (require (root == caller) session_access_denied) _ h₂ in
    let (row, known, h₄) =
      >>=-eq-ok (some_or (find (session_with_id e.session_id) db.sessions) unknown_session) _ h₃ in
    let (u', fits, h₅) =
      >>=-eq-ok (require (fits_revision expected row.annotation_revision) _) _ h₄ in
    let (db₁, applied, h₆) =
      >>=-eq-ok (apply_changes e row row.annotation_revision (changed_fields row changes) db) _
        h₅ in
    let (n, shown, h₇) = >>=-eq-ok (session_metadata db₁ e.session_id) _ h₆ in
    record {
      root = root;
      mine = mine;
      theirs = theirs ∙ ap ok (sym (eq_of_beq root caller (required _ _ u same)));
      row = row;
      found = found_row _ _ row known;
      fits = required _ _ u' fits;
      applied = applied ∙ ap ok (result_db h₇);
    }

-- A successful update with the accepted items of a dictionary was asked for from the same tree of
-- sessions, with the current revision if one was expected; it leaves the session with the title and
-- the description that the items name, and with its old ones where they name none, and raises the
-- revision by one for each item that differs.
pub update-revision :
    (e : Edit) (changes : List Change) (expected : Option ℕ) (db : Db) (m : Metadata) (db' : Db)
    → is_dict changes ≡ true
    → normalize_metadata changes ≡ ok changes
    → update_connection e changes expected db ≡ ok (m, db')
    → ((root : String) × (root_session_id db e.session_id ≡ ok root)
        × (root_session_id db e.actor_session_id ≡ ok root))
      × ((row : Session) × (find (session_with_id e.session_id) db.sessions ≡ some row)
          × (fits_revision expected row.annotation_revision ≡ true)
          × ((now : Session) × (find (session_with_id e.session_id) db'.sessions ≡ some now)
              × (now.title ≡ asked "title" changes row.title)
              × (now.description ≡ asked "description" changes row.description)
              × (now.annotation_revision
                  ≡ row.annotation_revision + length (changed_fields row changes))))
update-revision e changes expected db m db' dict accepted h =
    let s = steps e changes expected db m db' h in
    let changed = changed_fields s.row changes in
    let n = s.row.annotation_revision in
    (
      (s.root, s.mine, s.theirs),
      (
        s.row,
        s.found,
        s.fits,
        (
          edited changed n s.row,
          apply_changes_self e s.row n changed db db' s.row s.applied s.found,
          edited-title changed n s.row ∙ asked-changed "title" s.row changes dict,
          edited-description changed n s.row
                (all_fit-changed s.row changes (normalized-all_fit changes accepted))
              ∙ asked-changed "description" s.row changes dict,
          edited-revision changed n s.row refl,
        ),
      ),
    )

-- A successful update leaves the rows of all other sessions as they were.
pub update_ne :
    (e : Edit) (changes : List Change) (expected : Option ℕ) (db : Db) (m : Metadata) (db' : Db)
    (other : String)
    → (e.session_id == other) ≡ false
    → update_connection e changes expected db ≡ ok (m, db')
    → find (session_with_id other) db'.sessions ≡ find (session_with_id other) db.sessions
update_ne e changes expected db m db' other apart h =
    let s = steps e changes expected db m db' h in
    apply_changes_other e s.row s.row.annotation_revision (changed_fields s.row changes) db db'
      other apart s.applied
