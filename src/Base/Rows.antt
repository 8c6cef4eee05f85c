-- ===== src/Base/Rows.antt =====
-- A table is the list of its rows, in the order of insertion. These are the SQL clauses that the
-- kernel uses, and their laws.
use Prim.Native.Nat.{ℕ, suc, ◌≤◌, ◌<◌, max}
use mathlib.Core.Path.{◌≡◌, refl}
use mathlib.Core.Bool.{Bool, true, false, not, ◌&&◌}
use mathlib.Core.Option
use mathlib.Core.Option.{Option, none, some}
use mathlib.Core.List.{List, [], ◌∷◌, ◌++◌}
use native.Mathlib.Omega.{arith}
use mechagnome.Base.Tests.{if◌then◌else◌}

module _ {A : Type 0} where
  -- SELECT ... WHERE p, fetchone
  unfoldable pub find : (A → Bool) → List A → Option A
  find p [] = none
  find p (x ∷ xs) = if p x then some x else find p xs

  -- SELECT ... WHERE p, and, with `not p`, DELETE ... WHERE p
  unfoldable pub where_rows : (A → Bool) → List A → List A
  where_rows p [] = []
  where_rows p (x ∷ xs) = let rest = where_rows p xs in if p x then x ∷ rest else rest

  unfoldable pub delete_rows : (A → Bool) → List A → List A
  delete_rows p = where_rows (λ x. not (p x))

  -- UPDATE ... SET f WHERE p
  unfoldable pub update_rows : (A → Bool) → (A → A) → List A → List A
  update_rows p f [] = []
  update_rows p f (x ∷ xs) = (if p x then f x else x) ∷ update_rows p f xs

  -- COALESCE(MAX(f), 0)
  unfoldable pub max_of : (A → ℕ) → List A → ℕ
  max_of f [] = 0
  max_of f (x ∷ xs) = max (f x) (max_of f xs)

  -- COUNT(*)
  abbrev pub length : List A → ℕ
  length [] = 0
  length (x ∷ xs) = suc (length xs)

  abbrev pub is_some : Option A → Bool
  is_some none = false
  is_some (some a) = true

  abbrev pub or_else : Option A → Option A → Option A
  or_else none o = o
  or_else (some a) o = some a

  pub or_else-none : (o : Option A) → or_else o none ≡ o
  or_else-none none = refl
  or_else-none (some a) = refl

  pub find-append :
      (p : A → Bool) (xs ys : List A) → find p (xs ++ ys) ≡ or_else (find p xs) (find p ys)
  unfolding find
  find-append p [] ys = refl
  find-append p (x ∷ xs) ys = ground (arith, find-append p xs ys)

  pub find_sound : (p : A → Bool) (xs : List A) (a : A) → find p xs ≡ some a → p a ≡ true
  unfolding find
  find_sound p [] a h = ground arith
  find_sound p (x ∷ xs) a h = ground (arith, find_sound p xs a)

  -- a deletion that the search would not meet
  pub find-delete_other :
      (p q : A → Bool)
      → ((x : A) → q x ≡ true → p x ≡ false)
      → (xs : List A) → find p (delete_rows q xs) ≡ find p xs
  unfolding find where_rows delete_rows
  find-delete_other p q h [] = refl
  find-delete_other p q h (x ∷ xs) = ground (arith, h x, find-delete_other p q h xs)

  pub find-delete_self :
      (p q : A → Bool)
      → ((x : A) → p x ≡ true → q x ≡ true)
      → (xs : List A) → find p (delete_rows q xs) ≡ none
  unfolding find where_rows delete_rows
  find-delete_self p q h [] = refl
  find-delete_self p q h (x ∷ xs) = ground (arith, h x, find-delete_self p q h xs)

  -- an update that keeps what the search tests
  pub find-update :
      (p q : A → Bool) (f : A → A)
      → ((x : A) → q x ≡ true → p (f x) ≡ p x)
      → (xs : List A)
      → find p (update_rows q f xs) ≡ Option.map (λ x. if q x then f x else x) (find p xs)
  unfolding find update_rows
  find-update p q f h [] = refl
  find-update p q f h (x ∷ xs) = ground (arith, h x, find-update p q f h xs)

  pub find-le-max_of :
      (p : A → Bool) (f : A → ℕ) (xs : List A) (a : A) → find p xs ≡ some a → f a ≤ max_of f xs
  unfolding find max_of
  find-le-max_of p f [] a h = ground arith
  find-le-max_of p f (x ∷ xs) a h = ground (arith, find-le-max_of p f xs a)

  -- no row has a key above the maximum
  pub find_above_max_of :
      (p : A → Bool) (f : A → ℕ)
      → (n : ℕ) → ((x : A) → p x ≡ true → f x ≡ n)
      → (xs : List A) → max_of f xs < n
      → find p xs ≡ none
  unfolding find max_of
  find_above_max_of p f n h [] lt = refl
  find_above_max_of p f n h (x ∷ xs) lt = ground (arith, h x, find_above_max_of p f n h xs)

  pub max_of-append :
      (f : A → ℕ) (xs ys : List A) → max_of f (xs ++ ys) ≡ max (max_of f xs) (max_of f ys)
  unfolding max_of
  max_of-append f [] ys = omega arith
  max_of-append f (x ∷ xs) ys = omega (arith, max_of-append f xs ys)

  pub where_rows-append :
      (p : A → Bool) (xs ys : List A) → where_rows p (xs ++ ys) ≡ where_rows p xs ++ where_rows p ys
  unfolding where_rows
  where_rows-append p [] ys = refl
  where_rows-append p (x ∷ xs) ys = ground (arith, where_rows-append p xs ys)

  -- a search with two conditions, as a search among the rows that meet the first
  pub find-where_rows :
      (p q : A → Bool) (xs : List A) → find (λ x. p x && q x) xs ≡ find q (where_rows p xs)
  unfolding find where_rows
  find-where_rows p q [] = refl
  find-where_rows p q (x ∷ xs) = ground (arith, find-where_rows p q xs)

  pub where_rows-delete_self : (p : A → Bool) (xs : List A) → where_rows p (delete_rows p xs) ≡ []
  unfolding where_rows delete_rows
  where_rows-delete_self p [] = refl
  where_rows-delete_self p (x ∷ xs) = ground (arith, where_rows-delete_self p xs)

  pub where_rows-delete_other :
      (p q : A → Bool)
      → ((x : A) → q x ≡ true → p x ≡ false)
      → (xs : List A) → where_rows p (delete_rows q xs) ≡ where_rows p xs
  unfolding where_rows delete_rows
  where_rows-delete_other p q h [] = refl
  where_rows-delete_other p q h (x ∷ xs) = ground (arith, h x, where_rows-delete_other p q h xs)

  -- a search among the rows that hold what it tests, and more
  pub find-none-where_rows : (p : A → Bool) (xs : List A) → where_rows p xs ≡ [] → find p xs ≡ none
  unfolding where_rows find
  find-none-where_rows p [] h = refl
  find-none-where_rows p (x ∷ xs) h = ground (arith, find-none-where_rows p xs)
