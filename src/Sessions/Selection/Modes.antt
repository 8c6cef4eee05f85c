-- ===== src/Sessions/Selection/Modes.antt =====
-- What each mode of `select_toolboxes` selects.
use mechagnome.Base.{
  String, ◌≡◌, ◌≢◌, refl, sym, ap, ◌∙◌, ◌⊎◌, inl, inr, Bool, true, false, not, ◌&&◌, ◌||◌, List, [],
  ◌∷◌, ◌++◌, arith, ◌==◌, nat_eq, string_eq, eq_of_beq, beq_refl, beq_sym, Bool-cases,
}
use mechagnome.Base.Rows.{where_rows}
use mechagnome.Outcome.{Result, ok, >>=-eq-ok}
use mechagnome.Schema.{Db}
use mechagnome.Schema.Host.{Kernel, contains}
use mechagnome.Sessions.Selection.{
  Mode, use_only, add, remove, dedup, next_selection, session_default_id,
}

-- No toolbox stands twice.
abbrev pub Distinct : List String → Type 0
Distinct [] = Unit {0}
Distinct (x ∷ xs) = (contains xs x ≡ false) × Distinct xs

contains-append :
    (xs ys : List String) (a : String) → contains (xs ++ ys) a ≡ (contains xs a || contains ys a)
contains-append [] ys a = refl
contains-append (x ∷ xs) ys a = ground (arith, contains-append xs ys a)

contains-where_rows :
    (p : String → Bool) (xs : List String) (a : String)
    → contains (where_rows p xs) a ≡ (contains xs a && p a)
unfolding where_rows
contains-where_rows p [] a = refl
contains-where_rows p (x ∷ xs) a = elim (Bool-cases (x == a)) [
  | inl same ↦
      let e : x ≡ a = eq_of_beq x a same in ground (arith, contains-where_rows p xs a, ap p e)
  | inr apart ↦ ground (arith, contains-where_rows p xs a)
]

Distinct-where_rows :
    (p : String → Bool) (xs : List String) → Distinct xs → Distinct (where_rows p xs)
unfolding where_rows
Distinct-where_rows p [] d = tt
Distinct-where_rows p (x ∷ xs) (new, d) = elim (Bool-cases (p x)) [
  | inl kept ↦ rw kept (rw (contains-where_rows p xs x, new) refl, Distinct-where_rows p xs d)
  | inr dropped ↦ rw dropped (Distinct-where_rows p xs d)
]

pub Distinct-dedup : (xs : List String) → Distinct (dedup xs)
unfolding dedup
Distinct-dedup [] = tt
Distinct-dedup (x ∷ xs) = (
  ground (arith, contains-where_rows (λ y. not (y == x)) (dedup xs) x, beq_refl x),
  Distinct-where_rows (λ y. not (y == x)) (dedup xs) (Distinct-dedup xs),
)

pub contains-dedup : (xs : List String) (a : String) → contains (dedup xs) a ≡ contains xs a
unfolding dedup
contains-dedup [] a = refl
contains-dedup (x ∷ xs) a =
    ground (
      arith,
      contains-where_rows (λ y. not (y == x)) (dedup xs) a,
      contains-dedup xs a,
      beq_sym x a,
    )

Distinct-append :
    (xs ys : List String)
    → Distinct xs
    → Distinct ys
    → ((a : String) → contains ys a ≡ true → contains xs a ≡ false)
    → Distinct (xs ++ ys)
Distinct-append [] ys d e apart = e
Distinct-append (x ∷ xs) ys (new, d) e apart = (
  ground (arith, contains-append xs ys x, new, apart x, beq_refl x),
  Distinct-append xs ys d e (λ a h. ground (arith, apart a h)),
)

-- The toolboxes that a mode selects, out of the old ones and the requested ones.
abbrev pub Selects : Mode → (before requested after : List String) → Type 0
Selects use_only before requested after = (a : String) → contains after a ≡ contains requested a
Selects add before requested after =
    (a : String) → contains after a ≡ (contains before a || contains requested a)
Selects remove before requested after =
    ((a : String) → contains after a ≡ (contains before a && not (contains requested a)))
    ⊎ ((default : String) × (after ≡ default ∷ [])
        × ((a : String) → (contains before a && not (contains requested a)) ≡ false))

after_of :
    {x y : List String} {a b : Db}
    → ◌≡◌ {A = Result (List String × Db)} (ok (x, a)) (ok (y, b))
    → y ≡ x
after_of h = ground arith

not_both : (a b : Bool) → (b && not a) ≡ true → a ≡ false
not_both a b h = ground arith

append-nonempty : (xs ys : List String) → xs ≢ [] → (xs ++ ys) ≢ []
append-nonempty [] ys full e = full refl
append-nonempty (x ∷ xs) ys full e = absurd (ground arith)

contains-empty : (xs : List String) → xs ≡ [] → (a : String) → contains xs a ≡ false
contains-empty xs e a = rw e refl

module _ (k : Kernel) (db : Db) (uuid session : String) (before : List String) where
  use_lem :
      (requested after : List String) (db' : Db)
      → next_selection k use_only db uuid session before requested ≡ ok (after, db')
      → (after ≡ dedup requested) × (after ≢ [])
  unfolding next_selection dedup
  use_lem [] after db' h = absurd (ground arith)
  use_lem (r ∷ rs) after db' h = let e = after_of h in (e, λ none_left. absurd (ground arith))

  abbrev rest : List String → List String
  rest requested = where_rows (λ i. not (contains requested i)) before

  remove_lem :
      (requested after : List String) (db' : Db)
      → next_selection k remove db uuid session before requested ≡ ok (after, db')
      → ((after ≡ rest requested) × (after ≢ []))
        ⊎ ((rest requested ≡ []) × ((default : String) × (after ≡ default ∷ [])))
  unfolding next_selection
  remove_lem requested after db' h = go (rest requested) refl
    where
      go :
          (left : List String)
          → rest requested ≡ left
          → ((after ≡ rest requested) × (after ≢ []))
            ⊎ ((rest requested ≡ []) × ((default : String) × (after ≡ default ∷ [])))
      go [] e =
          let ((default, db₁), _, h₁) =
            >>=-eq-ok (session_default_id k db uuid session) (λ r. ok (r.0 ∷ [], r.1))
              (rw (next_selection, e) at h) in
          inr (e, (default, after_of h₁))
      go (i ∷ is) e =
          let same : after ≡ i ∷ is = after_of (rw (next_selection, e) at h) in
          inl (same ∙ sym e, λ none_left. absurd (ground arith))

  -- `use` selects the requested toolboxes, `add` the old and the requested ones, and `remove` the old
  -- ones that are not requested or, if there are none, a default; no toolbox is selected twice, and
  -- some toolbox is selected. Before, none was selected twice and some toolbox was selected.
  pub next_selection-Selects :
      (mode : Mode) (names after : List String) (db' : Db)
      → Distinct before
      → before ≢ []
      → next_selection k mode db uuid session before (dedup names) ≡ ok (after, db')
      → Selects mode before names after × Distinct after × (after ≢ [])
  unfolding next_selection
  next_selection-Selects use_only names after db' d full h =
      let (e, some_left) = use_lem (dedup names) after db' h in
      (
        λ a.
            ap (λ (xs : List String). contains xs a) e
            ∙ contains-dedup (dedup names) a
            ∙ contains-dedup names a,
        rw e (Distinct-dedup (dedup names)),
        some_left,
      )
  next_selection-Selects add names after db' d full h =
      let p = λ (i : String). not (contains before i) in
      let new = where_rows p (dedup names) in
      let e : after ≡ before ++ new = after_of h in
      let fresh : (a : String) → contains new a ≡ true → contains before a ≡ false = λ a h.
        not_both (contains before a) (contains (dedup names) a)
          (sym (contains-where_rows p (dedup names) a) ∙ h) in
      (
        λ a. rw e (
            ground (
              arith,
              contains-append before new a,
              contains-where_rows p (dedup names) a,
              contains-dedup names a,
            )),
        rw e (
            Distinct-append before new d
              (Distinct-where_rows p (dedup names) (Distinct-dedup names)) fresh),
        rw e (append-nonempty before new full),
      )
  next_selection-Selects remove names after db' d full h =
      let p = λ (i : String). not (contains (dedup names) i) in
      let left : (a : String)
          → contains (rest (dedup names)) a ≡ (contains before a && not (contains names a)) =
        λ a.
          contains-where_rows p before a
          ∙ ap (λ (b : Bool). contains before a && not b) (contains-dedup names a) in
      elim (remove_lem (dedup names) after db' h) [
        | inl (e, some_left) ↦ (
          inl (λ a. ap (λ (xs : List String). contains xs a) e ∙ left a),
          rw e (Distinct-where_rows p before d),
          some_left,
        )
        | inr (gone, (default, e)) ↦ (
          inr (default, e, λ a. sym (left a) ∙ contains-empty (rest (dedup names)) gone a),
          rw e (refl, tt),
          rw e (λ none_left. absurd (ground arith)),
        )
      ]
