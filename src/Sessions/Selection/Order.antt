-- ===== src/Sessions/Selection/Order.antt =====
-- The order of a session's selection: what `_replace_selection` stores is what `_selection_ids` reads.
use mechagnome.Base.{
  ℕ, suc, String, ◌≡◌, refl, ap, ◌∙◌, false, List, [], ◌∷◌, ◌++◌, map, arith, ◌==◌, nat_eq,
  string_eq, beq_refl, eq_of_beq,
}
use mechagnome.Base.Rows.{
  where_rows, where_rows-append, where_rows-delete_self, where_rows-delete_other,
}
use mechagnome.Outcome.{ok}
use mechagnome.Schema.{SessionToolbox, Db, selected_by}
use mechagnome.Schema.Insert.{insert_selection}
use mathlib.Core.List.{append-nil, append_assoc}
use mechagnome.Sessions.Selection.{
  insert_by_position, sort_by_position, selection_rows, selection_ids, replace_selection,
}

abbrev pub enumerate : String → ℕ → List String → List SessionToolbox
enumerate session n [] = []
enumerate session n (t ∷ ts) =
    record { session_id = session; position = n; toolbox_id = t } ∷ enumerate session (suc n) ts

pub insert_selection_lem :
    (db : Db) (session : String) (n : ℕ) (ts : List String) (db' : Db)
    → insert_selection db session n ts ≡ ok db'
    → db' ≡ record db { session_toolboxes = db.session_toolboxes ++ enumerate session n ts }
unfolding insert_selection
insert_selection_lem db session n [] db' h = ground (arith, append-nil db.session_toolboxes)
insert_selection_lem db session n (t ∷ ts) db' h =
    let row : SessionToolbox = record { session_id = session; position = n; toolbox_id = t } in
    ground (
      arith,
      insert_selection_lem (record db { session_toolboxes = db.session_toolboxes ++ (row ∷ []) })
          session (suc n) ts db',
      append_assoc db.session_toolboxes (row ∷ []) (enumerate session (suc n) ts),
    )

where_rows-enumerate :
    (session : String) (n : ℕ) (ts : List String)
    → where_rows (selected_by session) (enumerate session n ts) ≡ enumerate session n ts
unfolding where_rows
where_rows-enumerate session n [] = refl
where_rows-enumerate session n (t ∷ ts) =
    rw (beq_refl session, where_rows-enumerate session (suc n) ts) refl

where_rows-enumerate_ne :
    (session other : String) (n : ℕ) (ts : List String)
    → (session == other) ≡ false
    → where_rows (selected_by other) (enumerate session n ts) ≡ []
unfolding where_rows
where_rows-enumerate_ne session other n [] h = refl
where_rows-enumerate_ne session other n (t ∷ ts) h =
    rw (h, where_rows-enumerate_ne session other (suc n) ts h) refl

insert-enumerate :
    (session t : String) (n : ℕ) (ts : List String)
    → insert_by_position
        (record { session_id = session; position = n; toolbox_id = t })
        (enumerate session (suc n) ts)
      ≡ record { session_id = session; position = n; toolbox_id = t } ∷ enumerate session (suc n) ts
unfolding insert_by_position
insert-enumerate session t n [] = refl
insert-enumerate session t n (u ∷ ts) = ground arith

sort-enumerate :
    (session : String) (n : ℕ) (ts : List String)
    → sort_by_position (enumerate session n ts) ≡ enumerate session n ts
unfolding sort_by_position
sort-enumerate session n [] = refl
sort-enumerate session n (t ∷ ts) =
    rw (sort-enumerate session (suc n) ts) (insert-enumerate session t n ts)

ids-enumerate :
    (session : String) (n : ℕ) (ts : List String)
    → map (λ s. s.toolbox_id) (enumerate session n ts) ≡ ts
ids-enumerate session n [] = refl
ids-enumerate session n (t ∷ ts) = ap (◌∷◌ t) (ids-enumerate session (suc n) ts)

-- The selection of a session that had none, after the rows are stored.
pub selection_ids-insert :
    (db : Db) (session : String) (ts : List String) (db' : Db)
    → insert_selection db session 0 ts ≡ ok db'
    → selection_rows db session ≡ []
    → selection_ids db' session ≡ ts
unfolding selection_ids
selection_ids-insert db session ts db' h empty =
    rw
      (
        insert_selection_lem db session 0 ts db' h,
        where_rows-append (selected_by session) db.session_toolboxes (enumerate session 0 ts),
        empty,
        where_rows-enumerate session 0 ts,
        sort-enumerate session 0 ts,
      )
      (ids-enumerate session 0 ts)

pub selection_ids-insert_ne :
    (db : Db) (session other : String) (ts : List String) (db' : Db)
    → insert_selection db session 0 ts ≡ ok db'
    → (session == other) ≡ false
    → selection_ids db' other ≡ selection_ids db other
unfolding selection_ids
selection_ids-insert_ne db session other ts db' h ne =
    rw
      (
        insert_selection_lem db session 0 ts db' h,
        where_rows-append (selected_by other) db.session_toolboxes (enumerate session 0 ts),
        where_rows-enumerate_ne session other 0 ts ne,
        append-nil (selection_rows db other),
      )
      refl

-- What is stored is what is read, in the same order.
pub selection_ids-replace :
    (db : Db) (session : String) (ts : List String) (db' : Db)
    → replace_selection db session ts ≡ ok db'
    → selection_ids db' session ≡ ts
unfolding replace_selection
selection_ids-replace db session ts db' h =
    selection_ids-insert _ session ts db' h
      (where_rows-delete_self (selected_by session) db.session_toolboxes)

-- The other sessions keep their selections.
pub selection_ids-replace_ne :
    (db : Db) (session other : String) (ts : List String) (db' : Db)
    → replace_selection db session ts ≡ ok db'
    → (session == other) ≡ false
    → selection_ids db' other ≡ selection_ids db other
unfolding replace_selection selection_ids
selection_ids-replace_ne db session other ts db' h ne =
    selection_ids-insert_ne _ session other ts db' h ne
    ∙ rw
        (where_rows-delete_other (selected_by other) (selected_by session)
          (λ s mine. rw (eq_of_beq s.session_id session mine) ne) db.session_toolboxes)
        refl
