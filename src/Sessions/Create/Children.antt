-- ===== src/Sessions/Create/Children.antt =====
-- What a child session has of its parent.
use mechagnome.Sessions.Selection.Order.{insert_selection_lem, selection_ids-insert}
use mechagnome.Base.{
  ◌==◌, ℕ, String, ◌≡◌, refl, sym, ap, ◌∙◌, ◌⊎◌, inl, inr, Bool, true, false, Bool-cases, not,
  Option, none, some, List, [], ◌∷◌, ◌++◌, arith, nat_eq, string_eq, beq_refl, eq_of_beq,
  if◌then◌else◌,
}
use mechagnome.Base.Rows.{find, is_some, find-append}
use mechagnome.Outcome.{Error, Result, ok, require, >>=-eq-ok, unknown_session}
use mechagnome.Schema.{Session, Db, session_with_id, has_session}
use mechagnome.Schema.Insert.{insert_session, insert_selection, context_fits, is_null}
use mechagnome.Events.{latest_completed}
use mechagnome.Sessions.Lineage.{root_session_id}
use mechagnome.Sessions.Lineage.Rooted.{AllRooted, insert_session-AllRooted, root_session_id-ok}
use mechagnome.Sessions.Create.{
  Scope, ChildRequest, caller_of, check_context, check_origin, child_session,
  create_child_connection,
}
use mechagnome.Sessions.Selection.{selection_rows, selection_ids}

insert_session_inv :
    (db : Db) (s : Session) (db' : Db)
    → insert_session db s ≡ ok db'
    → (db' ≡ record db { sessions = db.sessions ++ (s ∷ []) })
      × (find (session_with_id s.id) db.sessions ≡ none)
      × (context_fits s ≡ true)
unfolding insert_session
insert_session_inv db s db' h = (ground arith, ground arith, ground arith)

find-last :
    (rows : List Session) (s : Session)
    → find (session_with_id s.id) rows ≡ none
    → find (session_with_id s.id) (rows ++ (s ∷ [])) ≡ some s
unfolding find
find-last rows s fresh =
    rw (find-append (session_with_id s.id) rows (s ∷ []), fresh, beq_refl s.id) refl

-- What a successful creation did.
record Steps (uuid : String) (parent : Scope) (r : ChildRequest) (db db' : Db) : Type 0 where
  base : Db
  stored : insert_session db (child_session uuid parent r) ≡ ok base
  selected : insert_selection base uuid 0 parent.toolbox_ids ≡ ok db'
  known : has_session db parent.session_id ≡ true
  checked : check_context db parent r.context_source_session_id r.context_through_seq ≡ ok tt

result_id :
    {x y : String} {a b : Db} → ◌≡◌ {A = Result (String × Db)} (ok (x, a)) (ok (y, b)) → b ≡ a
result_id h = ground arith

required : (b : Bool) (e : Error) (u : Unit {0}) → require b e ≡ ok u → b ≡ true
required true e u h = refl
required false e u h = absurd (ground arith)

steps :
    (uuid : String) (parent : Scope) (r : ChildRequest) (db : Db) (i : String) (db' : Db)
    → create_child_connection uuid parent r db ≡ ok (i, db')
    → Steps uuid parent r db db'
unfolding create_child_connection
steps uuid parent r db i db' h =
    let (u₀, known, h₁) =
      >>=-eq-ok (require (has_session db parent.session_id) unknown_session) _ h in
    let (u, context, h₂) =
      >>=-eq-ok (check_context db parent r.context_source_session_id r.context_through_seq) _ h₁ in
    let (_, origin, h₃) =
      >>=-eq-ok (check_origin db (caller_of parent r.origin_scope) r.origin_call_id) _ h₂ in
    let (db₁, stored, h₄) = >>=-eq-ok (insert_session db (child_session uuid parent r)) _ h₃ in
    let (db₂, selected, h₅) = >>=-eq-ok (insert_selection db₁ uuid 0 parent.toolbox_ids) _ h₄ in
    record {
      base = db₁;
      stored = stored;
      selected = selected ∙ ap ok (sym (result_id h₅));
      known = required (has_session db parent.session_id) unknown_session u₀ known;
      checked = context;
    }

-- A session that is there is not the new one.
apart_from :
    (db : Db) (old new : String)
    → has_session db old ≡ true
    → find (session_with_id new) db.sessions ≡ none
    → not (old == new) ≡ true
apart_from db old new there fresh = elim (Bool-cases (old == new)) [
  | inr other ↦ rw other refl
  | inl same ↦
      let here : has_session db new ≡ true =
        ap (has_session db) (sym (eq_of_beq old new same)) ∙ there in
      absurd (ground (arith, here, fresh))
]

-- A new child has its parent's toolboxes in their order and its parent's root, and every session
-- still leads to a root. Before, all sessions led to one, and no selection had the new id.
pub create_child-inherits :
    (uuid : String) (parent : Scope) (r : ChildRequest) (db : Db) (i : String) (db' : Db)
    → AllRooted db.sessions
    → selection_rows db uuid ≡ []
    → create_child_connection uuid parent r db ≡ ok (i, db')
    → (selection_ids db' uuid ≡ parent.toolbox_ids)
      × AllRooted db'.sessions
      × ((root : String) × (root_session_id db' uuid ≡ ok root)
          × (root_session_id db' parent.session_id ≡ ok root))
create_child-inherits uuid parent r db i db' all none_yet h =
    let s = steps uuid parent r db i db' h in
    let (state, fresh, _) = insert_session_inv db (child_session uuid parent r) s.base s.stored in
    let kept : db'.sessions ≡ s.base.sessions =
      ap (λ (d : Db). d.sessions)
        (insert_selection_lem s.base uuid 0 parent.toolbox_ids db' s.selected) in
    let rooted : AllRooted db'.sessions = rw kept (
      insert_session-AllRooted db (child_session uuid parent r) s.base
        (apart_from db parent.session_id uuid s.known fresh) s.stored all) in
    let here : find (session_with_id uuid) db'.sessions ≡ some (child_session uuid parent r) =
      ap (find (session_with_id uuid)) (kept ∙ ap (λ (d : Db). d.sessions) state)
      ∙ find-last db.sessions (child_session uuid parent r) fresh in
    let (root, mine, parents) = root_session_id-ok db' uuid rooted (ap is_some here) in
    (
      selection_ids-insert s.base uuid parent.toolbox_ids db' s.selected
          (ap (λ (d : Db). selection_rows d uuid) state ∙ none_yet),
      rooted,
      (root, mine, parents (child_session uuid parent r) parent.session_id here refl),
    )

abbrev Fitting : Db → Scope → Option String → Option ℕ → Type 0
Fitting db parent source through =
    ((source ≡ none) × (through ≡ none))
    ⊎ ((source ≡ some parent.session_id) × (through ≡ some (latest_completed db parent.session_id)))

context_cases :
    (db : Db) (parent : Scope) (source : Option String) (through : Option ℕ)
    → check_context db parent source through ≡ ok tt
    → (if is_null source then is_null through else not (is_null through)) ≡ true
    → Fitting db parent source through
unfolding check_context
context_cases db parent none none checked fits = inl (refl, refl)
context_cases db parent none (some n) checked fits = absurd (ground arith)
context_cases db parent (some s) none checked fits = absurd (ground arith)
context_cases db parent (some s) (some n) checked fits =
    let same : s ≡ parent.session_id = eq_of_beq s parent.session_id (ground arith) in
    let end : n ≡ latest_completed db s = eq_of_beq n (latest_completed db s) (ground arith) in
    inr (ap some same, ap some (end ∙ ap (latest_completed db) same))

-- A new child's stored row has its parent and, if a fork context was asked for, takes it from the
-- parent, up to the end of the parent's latest completed turn; without one it has neither source nor
-- sequence.
pub create_child_context :
    (uuid : String) (parent : Scope) (r : ChildRequest) (db : Db) (i : String) (db' : Db)
    → create_child_connection uuid parent r db ≡ ok (i, db')
    → (child : Session) × (find (session_with_id uuid) db'.sessions ≡ some child)
      × (child.parent_session_id ≡ some parent.session_id)
      × (((r.context_source_session_id ≡ none)
            × (child.context_source_session_id ≡ none)
            × (child.context_through_seq ≡ none))
          ⊎ ((r.context_source_session_id ≡ some parent.session_id)
              × (child.context_source_session_id ≡ some parent.session_id)
              × (child.context_through_seq ≡ some (latest_completed db parent.session_id))))
unfolding context_fits
create_child_context uuid parent r db i db' h =
    let s = steps uuid parent r db i db' h in
    let child = child_session uuid parent r in
    let (state, fresh, fits) = insert_session_inv db child s.base s.stored in
    let kept : db'.sessions ≡ s.base.sessions =
      ap (λ (d : Db). d.sessions)
        (insert_selection_lem s.base uuid 0 parent.toolbox_ids db' s.selected) in
    (
      child,
      ap (find (session_with_id uuid)) (kept ∙ ap (λ (d : Db). d.sessions) state)
          ∙ find-last db.sessions child fresh,
      refl,
      elim (context_cases db parent r.context_source_session_id r.context_through_seq s.checked
          (ground arith)) [
            | inl (unforked, nothing) ↦ inl (unforked, unforked, nothing)
            | inr (source, through) ↦ inr (source, source, through)
          ],
    )
