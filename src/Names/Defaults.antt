-- ===== src/Names/Defaults.antt =====
-- The name that `Kernel._ensure_cwd_default` gives to the toolbox of a directory.
use Prim.Native.Char.{Char, code}
use Prim.Native.String.{◌++◌ as append}
use text.Mathlib.TextLemmas.{cons-append, nil-append}
use mechagnome.Base.{
  ℕ, zero, suc, ◌+◌, ◌≤◌, String, ◌≡◌, refl, ap, inl, inr, Bool-cases, ◌++◌, Bool, true, false,
  arith, List, [], ◌∷◌, ◌==◌, nat_eq, string_eq, if◌then◌else◌,
}
use mechagnome.Base.Rows.{length}
use mechagnome.Schema.Host.{Host}
use mechagnome.Names.{codes, is_name_char, is_word_char, all_of, matches, is_toolbox_name}

-- `re.sub(r"[^A-Za-z0-9_.-]", "-", text)`
dashed : String → String
dashed String.[] = ""
dashed (String.◌∷◌ c s) = String.◌∷◌ (if is_name_char (code c) then c else "-") (dashed s)

-- `text[:n]`
take : ℕ → String → String
take zero s = ""
take (suc n) String.[] = ""
take (suc n) (String.◌∷◌ c s) = String.◌∷◌ c (take n s)

unfoldable pub default_name : Host → String → String
unfolding dashed take
default_name h cwd =
    let slug = dashed (h.path_name cwd) in
    let base = if slug == "" then "root" else slug in
    append "cwd-" (append (take 40 base) (append "-" (h.digest cwd)))

codes-append : (s t : String) → codes (append s t) ≡ codes s ++ codes t
codes-append String.[] t = rw nil-append
codes-append (String.◌∷◌ c s) t = rw cons-append (ap (◌∷◌ (code c)) (codes-append s t))

all_of-append :
    (p : ℕ → Bool) (xs ys : List ℕ)
    → all_of p xs ≡ true
    → all_of p ys ≡ true
    → all_of p (xs ++ ys) ≡ true
all_of-append p [] ys h k = k
all_of-append p (x ∷ xs) ys h k = ground (arith, all_of-append p xs ys)

length-append : (xs ys : List ℕ) → length (xs ++ ys) ≡ length xs + length ys
length-append [] ys = omega arith
length-append (x ∷ xs) ys = omega (arith, length-append xs ys)

dash-is_name_char :
    (c : Char) (b : Bool)
    → is_name_char (code c) ≡ b
    → is_name_char (code (if b then c else "-")) ≡ true
unfolding is_name_char
dash-is_name_char c true h = h
dash-is_name_char c false h = refl

all_of-dashed : (s : String) → all_of is_name_char (codes (dashed s)) ≡ true
unfolding dashed
all_of-dashed String.[] = refl
all_of-dashed (String.◌∷◌ c s) =
    rw (dash-is_name_char c (is_name_char (code c)) refl) (all_of-dashed s)

all_of-take :
    (n : ℕ) (s : String)
    → all_of is_name_char (codes s) ≡ true
    → all_of is_name_char (codes (take n s)) ≡ true
unfolding take
all_of-take zero s h = refl
all_of-take (suc n) String.[] h = refl
all_of-take (suc n) (String.◌∷◌ c s) h = ground (arith, all_of-take n s)

length-take-le : (n : ℕ) (s : String) → length (codes (take n s)) ≤ n
unfolding take
length-take-le zero s = omega arith
length-take-le (suc n) String.[] = omega arith
length-take-le (suc n) (String.◌∷◌ c s) = omega (arith, length-take-le n s)

dash-all_of : (cs : List ℕ) → all_of is_name_char cs ≡ true → all_of is_name_char (b'-' ∷ cs) ≡ true
unfolding is_name_char
dash-all_of cs h = h

prefixed-matches :
    (cs : List ℕ)
    → length cs ≤ 60
    → all_of is_name_char cs ≡ true
    → matches is_word_char (b'c' ∷ b'w' ∷ b'd' ∷ cs) ≡ true
unfolding matches is_word_char is_name_char
prefixed-matches cs short h = rw h (ground arith)

module _ (h : Host) (cwd : String) where
  abbrev slug : String
  slug = dashed (h.path_name cwd)

  abbrev base : String
  base = if slug == "" then "root" else slug

  all_of-base : all_of is_name_char (codes base) ≡ true
  unfolding is_name_char
  all_of-base = elim (Bool-cases (slug == "")) [
    | inl e ↦ rw e refl
    | inr e ↦ rw e (all_of-dashed (h.path_name cwd))
  ]

  abbrev tail_codes : List ℕ
  tail_codes = codes (take 40 base) ++ (b'-' ∷ codes (h.digest cwd))

  codes-default_name : codes (default_name h cwd) ≡ b'c' ∷ b'w' ∷ b'd' ∷ b'-' ∷ tail_codes
  unfolding default_name
  codes-default_name = simp (codes-append)

  -- The name that a directory's toolbox gets is a name that `create_toolbox` accepts, whatever the
  -- directory is called, if the digest is 8 characters of names, as hexadecimal digits are.
  pub default_name-is_toolbox_name :
      all_of is_name_char (codes (h.digest cwd)) ≡ true
      → length (codes (h.digest cwd)) ≡ 8
      → is_toolbox_name (default_name h cwd) ≡ true
  unfolding is_toolbox_name
  default_name-is_toolbox_name d n = rw codes-default_name (
      prefixed-matches (b'-' ∷ tail_codes)
        (omega (
          arith,
          n,
          length-take-le 40 base,
          length-append (codes (take 40 base)) (b'-' ∷ codes (h.digest cwd)),
        ))
        (dash-all_of tail_codes (
          all_of-append is_name_char (codes (take 40 base)) (b'-' ∷ codes (h.digest cwd))
            (all_of-take 40 base all_of-base) (dash-all_of (codes (h.digest cwd)) d))))
