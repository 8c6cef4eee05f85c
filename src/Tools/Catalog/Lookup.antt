-- ===== src/Tools/Catalog/Lookup.antt =====
-- The first row of a name among the rows of the catalog.
use Prim.Native.Nat.{Ordering}
use Prim.Native.String.{compare}
use mechagnome.Base.{
  ℕ, ◌+◌, ◌≤◌, ◌++◌, String, ◌≡◌, refl, sym, ap, ◌∙◌, inl, inr, Bool, true, false, ◌||◌, Option,
  none, some, List, [], ◌∷◌, arith, ◌==◌, nat_eq, string_eq, beq_refl, eq_of_beq, if◌then◌else◌,
  Bool-cases, Option-cases,
}
use mechagnome.Base.Rows.{length, find, where_rows, or_else, is_some, find-append}
use mechagnome.Schema.{Binding, Db, binding_named}
use mechagnome.Schema.Host.{contains}
use mechagnome.Tools.Resolve.{find_binding, join_binding}
use mechagnome.Tools.Ownership.{IsWellFormed}
use mechagnome.Tools.Catalog.{
  EffectiveRow, row_of, joined_rows, insert_by_name, sort_by_name, in_toolbox, candidates,
  take_unseen, unseen_rows, effective_rows,
}

abbrev pub named : String → EffectiveRow → Bool
named name r = r.name == name

-- Sorting by name does not change which row of a name comes first.
compare_refl : (s : String) → compare s s ≡ Ordering.eq
compare_refl s = ground (arith, beq_refl s)

compare_same :
    (s t name : String) → (s == name) ≡ true → (t == name) ≡ true → compare s t ≡ Ordering.eq
compare_same s t name h k = rw (eq_of_beq s name h, eq_of_beq t name k) (compare_refl name)

find-insert_by_name :
    (name : String) (r : EffectiveRow) (rs : List EffectiveRow)
    → find (named name) (insert_by_name r rs) ≡ find (named name) (r ∷ rs)
unfolding find insert_by_name
find-insert_by_name name r [] = refl
find-insert_by_name name r (s ∷ ss) =
    ground (arith, find-insert_by_name name r ss, compare_same r.name s.name name)

find-sort_by_name :
    (name : String) (rs : List EffectiveRow)
    → find (named name) (sort_by_name rs) ≡ find (named name) rs
unfolding find sort_by_name
find-sort_by_name name [] = refl
find-sort_by_name name (r ∷ rs) =
    find-insert_by_name name r (sort_by_name rs) ∙ ground (arith, find-sort_by_name name rs)

-- The row that a binding, if there is one, joins to.
abbrev pub row_by : Db → Option Binding → Option EffectiveRow
row_by db o = elim o [ none ↦ none | some b ↦ row_of db b ]

row_of-name : (db : Db) (b : Binding) (r : EffectiveRow) → row_of db b ≡ some r → r.name ≡ b.name
unfolding row_of
row_of-name db b r h = ground arith

find-row_joined :
    (db : Db) (name : String) (b : Binding) (bs : List Binding) (r : EffectiveRow)
    → row_of db b ≡ some r
    → find (named name) (joined_rows db (b ∷ bs))
      ≡ (if b.name == name then some r else find (named name) (joined_rows db bs))
unfolding find joined_rows
find-row_joined db name b bs r h =
    ground (arith, h, ap (λ (s : String). s == name) (row_of-name db b r h))

find-row_absent :
    (db : Db) (name : String) (b : Binding) (bs : List Binding)
    → row_of db b ≡ none
    → find (named name) (joined_rows db (b ∷ bs)) ≡ find (named name) (joined_rows db bs)
unfolding joined_rows
find-row_absent db name b bs h = ground (arith, h)

-- The first row of a name comes from the first binding of the name, if that binding joins.
find-joined_rows :
    (db : Db) (toolbox name : String) (bs : List Binding)
    → ((b : Binding) → find (binding_named toolbox name) bs ≡ some b → is_some (row_of db b) ≡ true)
    → find (named name) (joined_rows db (where_rows (in_toolbox toolbox) bs))
      ≡ row_by db (find (binding_named toolbox name) bs)
unfolding find where_rows joined_rows
find-joined_rows db toolbox name [] h = refl
find-joined_rows db toolbox name (b ∷ bs) h = elim (Bool-cases (b.toolbox_id == toolbox)) [
  | inr apart ↦ rw apart (find-joined_rows db toolbox name bs (λ b' found. h b' (rw apart found)))
  | inl here ↦
      let left = where_rows (in_toolbox toolbox) bs in
      elim (Bool-cases (b.name == name)) [
        | inl mine ↦ elim (Option-cases (row_of db b)) [
          | inl gone ↦ absurd (ground (arith, h b (rw (here, mine) refl), gone))
          | inr (r, joined) ↦
              rw (here, mine) (find-row_joined db name b left r joined ∙ rw (mine, joined) refl)
        ]
        | inr other ↦
            let rest =
              find-joined_rows db toolbox name bs (λ b' found. h b' (rw (here, other) found)) in
            elim (Option-cases (row_of db b)) [
              | inl gone ↦ rw (here, other) (find-row_absent db name b left gone ∙ rest)
              | inr (r, joined) ↦
                  rw (here, other) (find-row_joined db name b left r joined ∙ rw other rest)
            ]
      ]
]

module _ {db : Db} (w : IsWellFormed db) where
  joins :
      (toolbox name : String) (b : Binding)
      → find_binding db toolbox name ≡ some b
      → is_some (row_of db b) ≡ true
  unfolding row_of join_binding
  joins toolbox name b found =
      let (j, joined, owner, label) = w.owned toolbox name b found in ground (arith, joined)

  find-candidates :
      (toolbox name : String)
      → find (named name) (candidates db toolbox) ≡ row_by db (find_binding db toolbox name)
  unfolding candidates
  find-candidates toolbox name =
      find-sort_by_name name (joined_rows db (where_rows (in_toolbox toolbox) db.bindings))
      ∙ find-joined_rows db toolbox name db.bindings (joins toolbox name)

-- What the inner loop takes of a name, and whether it has seen the name then.
find-take_unseen :
    (name : String) (seen : List String) (rs : List EffectiveRow)
    → (find (named name) (take_unseen seen rs).0
        ≡ (if contains seen name then none else find (named name) rs))
      × (contains (take_unseen seen rs).1 name
          ≡ (contains seen name || is_some (find (named name) rs)))
unfolding find take_unseen
find-take_unseen name seen [] = (ground arith, ground arith)
find-take_unseen name seen (r ∷ rs) = elim (Bool-cases (contains seen r.name)) [
  | inl old ↦
      let (taken, known) = find-take_unseen name seen rs in
      elim (Bool-cases (r.name == name)) [
        | inl mine ↦
            let before : contains seen name ≡ true =
              ap (contains seen) (sym (eq_of_beq r.name name mine)) ∙ old in
            ground (arith, old, mine, before, taken, known)
        | inr other ↦ ground (arith, old, other, taken, known)
      ]
  | inr new ↦
      let (taken, known) = find-take_unseen name (r.name ∷ seen) rs in
      elim (Bool-cases (r.name == name)) [
        | inl mine ↦
            let before : contains seen name ≡ false =
              ap (contains seen) (sym (eq_of_beq r.name name mine)) ∙ new in
            ground (arith, new, mine, before, taken, known)
        | inr other ↦ ground (arith, new, other, taken, known)
      ]
]

-- How many rows have a name.
abbrev pub count_named : String → List EffectiveRow → ℕ
count_named name rs = length (where_rows (named name) rs)

count-append :
    (name : String) (rs ss : List EffectiveRow)
    → count_named name (rs ++ ss) ≡ count_named name rs + count_named name ss
unfolding where_rows
count-append name [] ss = omega arith
count-append name (r ∷ rs) ss = ground (arith, count-append name rs ss)

count-insert_by_name :
    (name : String) (r : EffectiveRow) (rs : List EffectiveRow)
    → count_named name (insert_by_name r rs) ≡ count_named name (r ∷ rs)
unfolding where_rows insert_by_name
count-insert_by_name name r [] = refl
count-insert_by_name name r (s ∷ ss) = ground (arith, count-insert_by_name name r ss)

count-sort_by_name :
    (name : String) (rs : List EffectiveRow)
    → count_named name (sort_by_name rs) ≡ count_named name rs
unfolding where_rows sort_by_name
count-sort_by_name name [] = refl
count-sort_by_name name (r ∷ rs) =
    count-insert_by_name name r (sort_by_name rs) ∙ ground (arith, count-sort_by_name name rs)

-- How many rows of a name may still be taken.
abbrev room : List String → String → ℕ
room seen name = if contains seen name then 0 else 1

count-take_unseen :
    (name : String) (seen : List String) (rs : List EffectiveRow)
    → count_named name (take_unseen seen rs).0 + room (take_unseen seen rs).1 name ≤ room seen name
unfolding where_rows take_unseen
count-take_unseen name seen [] = omega arith
count-take_unseen name seen (r ∷ rs) = elim (Bool-cases (contains seen r.name)) [
  | inl old ↦ ground (arith, old, count-take_unseen name seen rs)
  | inr new ↦
      let rest = count-take_unseen name (r.name ∷ seen) rs in
      elim (Bool-cases (r.name == name)) [
        | inl mine ↦
            let before : contains seen name ≡ false =
              ap (contains seen) (sym (eq_of_beq r.name name mine)) ∙ new in
            ground (arith, new, mine, before, rest)
        | inr other ↦ ground (arith, new, other, rest)
      ]
]

count-unseen_rows :
    (db : Db) (name : String) (seen ts : List String)
    → count_named name (unseen_rows db seen ts) ≤ room seen name
unfolding where_rows unseen_rows
count-unseen_rows db name seen [] = omega arith
count-unseen_rows db name seen (t ∷ ts) =
    let step = take_unseen seen (candidates db t) in
    omega (
      arith,
      count-append name step.0 (unseen_rows db step.1 ts),
      count-take_unseen name seen (candidates db t),
      count-unseen_rows db name step.1 ts,
    )

-- No two rows of the catalog have the same name.
pub count-effective_rows :
    (db : Db) (name : String) (ts : List String) → count_named name (effective_rows db ts) ≤ 1
unfolding effective_rows
count-effective_rows db name ts =
    omega (arith, count-sort_by_name name (unseen_rows db [] ts), count-unseen_rows db name [] ts)

module _ {db : Db} (w : IsWellFormed db) where
  -- The row of a name in the first toolbox that binds it.
  abbrev pub row_through : String → List String → Option EffectiveRow
  row_through name [] = none
  row_through name (t ∷ ts) = or_else (row_by db (find_binding db t name)) (row_through name ts)

  find-unseen_rows :
      (name : String) (seen ts : List String)
      → find (named name) (unseen_rows db seen ts)
        ≡ (if contains seen name then none else row_through name ts)
  unfolding find unseen_rows
  find-unseen_rows name seen [] = ground arith
  find-unseen_rows name seen (t ∷ ts) =
      let step = take_unseen seen (candidates db t) in
      let (taken, known) = find-take_unseen name seen (candidates db t) in
      find-append (named name) step.0 (unseen_rows db step.1 ts)
      ∙ rw (taken, find-unseen_rows name step.1 ts, known, find-candidates w t name) (ground arith)

  pub find-effective_rows :
      (name : String) (ts : List String)
      → find (named name) (effective_rows db ts) ≡ row_through name ts
  unfolding effective_rows
  find-effective_rows name ts =
      find-sort_by_name name (unseen_rows db [] ts) ∙ find-unseen_rows name [] ts
