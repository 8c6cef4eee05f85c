-- ===== src/Base/Tests.antt =====
-- Boolean tests on numbers and texts, the conditional, and case splits that keep the equation.
use Prim.Native.Nat.{ℕ, compare, Ordering}
use Prim.Native.String.{String}
use mathlib.Core.Path.{◌≡◌, refl}
use mathlib.Core.Logic.{◌≢◌, ◌⊎◌, inl, inr}
use mathlib.Core.Bool.{Bool, true, false}
use mathlib.Core.Option.{Option, none, some}
use native.Mathlib.Omega.{arith}
use text.Mathlib.Text.{◌==◌ as str_eq}
use text.Mathlib.TextEquality.{eq_iff}

abbrev pub ltb : ℕ → ℕ → Bool
ltb a b = elim (compare a b) [ Ordering.lt ↦ true | _ ↦ false ]

abbrev pub leb : ℕ → ℕ → Bool
leb a b = elim (compare a b) [ Ordering.gt ↦ false | _ ↦ true ]

abbrev nat_beq : ℕ → ℕ → Bool
nat_beq a b = elim (compare a b) [ Ordering.eq ↦ true | _ ↦ false ]

-- Types whose values the program compares by `==`: the test says yes to equal values and no others.
pub record Comparable {ℓ} (K : Type ℓ) : Type ℓ where
  pub same : K → K → Bool
  pub sound : (x y : K) → same x y ≡ true → x ≡ y
  pub complete : (x : K) → same x x ≡ true

instance abbrev pub string_eq : Comparable String
string_eq = record {
  same = str_eq;
  sound = λ x y. (eq_iff x y).0;
  complete = λ x. (eq_iff x x).1 refl;
}

pub nat_beq_sound : (x y : ℕ) → nat_beq x y ≡ true → x ≡ y
nat_beq_sound x y h = ground arith

pub nat_beq_complete : (x : ℕ) → nat_beq x x ≡ true
nat_beq_complete x = ground arith

instance abbrev pub nat_eq : Comparable ℕ
nat_eq = record { same = nat_beq; sound = nat_beq_sound; complete = nat_beq_complete }

infix 50 ◌==◌
abbrev pub ◌==◌ {ℓ} : {K : Type ℓ} ⦃c : Comparable K⦄ → K → K → Bool
◌==◌ ⦃c⦄ x y = c.same x y

module _ {ℓ} {K : Type ℓ} ⦃c : Comparable K⦄ where
  pub beq_refl : (x : K) → (x == x) ≡ true
  beq_refl x = c.complete x

  pub eq_of_beq : (x y : K) → (x == y) ≡ true → x ≡ y
  eq_of_beq x y = c.sound x y

  beq_of_eq : (x y : K) → x ≡ y → (x == y) ≡ true
  beq_of_eq x y p = rw p (c.complete y)

  pub ne_of_beq : (x y : K) → (x == y) ≡ false → x ≢ y
  ne_of_beq x y apart p = cc (apart, beq_of_eq x y p)

  pub beq_of_ne : (x y : K) → x ≢ y → (x == y) ≡ false
  beq_of_ne x y apart = ground (arith, c.sound x y)

  pub beq_sym : (x y : K) → (x == y) ≡ (y == x)
  beq_sym x y = ground (arith, c.sound x y, c.sound y x, beq_of_eq x y, beq_of_eq y x)

infix 1 if◌then◌else◌
abbrev pub if◌then◌else◌ {ℓ} : {A : Type ℓ} → Bool → A → A → A
if true then x else y = x
if false then x else y = y

-- Which of the two a test said.
pub Bool-cases : (answer : Bool) → (answer ≡ true) ⊎ (answer ≡ false)
Bool-cases false = inr refl
Bool-cases true = inl refl

-- Whether a row was found.
pub Option-cases {ℓ} :
    {Row : Type ℓ} (found : Option Row) → (found ≡ none) ⊎ ((row : Row) × (found ≡ some row))
Option-cases (some row) = inr (row, refl)
Option-cases none = inl refl
