-- ===== src/Sessions/Annotations/Values.antt =====
-- The title and the description that a list of changes leaves.
use mechagnome.Base.{
  ℕ, ◌+◌, String, not, ◌&&◌, ◌||◌, ◌≡◌, refl, sym, ap, ◌∙◌, inl, inr, Bool, true, false, Option,
  none, some, List, [], ◌∷◌, ◌==◌, nat_eq, string_eq, eq_of_beq, if◌then◌else◌, arith, Bool-cases,
}
use mechagnome.Base.Rows.{where_rows}
use mechagnome.Outcome.{ok}
use mechagnome.Schema.{Session}
use mechagnome.Sessions.Annotations.{
  value_of, same_value, all_fit, is_too_long, normalize_metadata, Change, edit,
}

-- The row after a list of changes, each of which raises the revision by one.
abbrev pub edited : List Change → ℕ → Session → Session
edited [] revision s = s
edited (c ∷ cs) revision s = edited cs (revision + 1) (edit c (revision + 1) s)

-- The value that a list of changes gives to a field: the last one, or else the old value.
abbrev pub asked : String → List Change → Option String → Option String
asked field [] old = old
asked field (c ∷ cs) old = asked field cs (if c.field == field then c.value else old)

abbrev pub mentions : String → List Change → Bool
mentions field [] = false
mentions field (c ∷ cs) = c.field == field || mentions field cs

-- The changes are the items of a dictionary.
abbrev pub is_dict : List Change → Bool
is_dict [] = true
is_dict (c ∷ cs) = not (mentions c.field cs) && is_dict cs

pub edited-title :
    (cs : List Change) (n : ℕ) (s : Session) → (edited cs n s).title ≡ asked "title" cs s.title
edited-title [] n s = refl
edited-title (c ∷ cs) n s = elim (Bool-cases (c.field == "title")) [
  | inl t ↦ edited-title cs (n + 1) (edit c (n + 1) s) ∙ ap (asked "title" cs) (rw t refl)
  | inr d ↦ edited-title cs (n + 1) (edit c (n + 1) s) ∙ ap (asked "title" cs) (rw d refl)
]

described :
    (c : Change)
    → is_too_long c ≡ false
    → (c.field == "title") ≡ false
    → (c.field == "description") ≡ true
described c fits d = ground (arith, fits, d)

pub edited-description :
    (cs : List Change) (n : ℕ) (s : Session)
    → all_fit cs ≡ true
    → (edited cs n s).description ≡ asked "description" cs s.description
edited-description [] n s fits = refl
edited-description (c ∷ cs) n s fits =
    let short : is_too_long c ≡ false = ground (arith, fits) in
    let fits' : all_fit cs ≡ true = ground (arith, fits) in
    elim (Bool-cases (c.field == "title")) [
      | inl t ↦
          edited-description cs (n + 1) (edit c (n + 1) s) fits'
          ∙ ap (asked "description" cs) (rw (eq_of_beq c.field "title" t) refl)
      | inr d ↦
          edited-description cs (n + 1) (edit c (n + 1) s) fits'
          ∙ ap (asked "description" cs) (rw (d, described c short d) refl)
    ]

same_value-eq : (a b : Option String) → same_value a b ≡ true → a ≡ b
same_value-eq none none h = refl
same_value-eq none (some b) h = absurd (ground arith)
same_value-eq (some a) none h = absurd (ground arith)
same_value-eq (some a) (some b) h = ap some (eq_of_beq a b h)

asked-unmentioned :
    (field : String) (cs : List Change) (old : Option String)
    → mentions field cs ≡ false
    → asked field cs old ≡ old
asked-unmentioned field [] old h = refl
asked-unmentioned field (c ∷ cs) old h =
    let other : (c.field == field) ≡ false = ground (arith, h) in
    rw other (asked-unmentioned field cs old (ground (arith, h)))

abbrev pub differs : Session → Change → Bool
differs row c = not (same_value (value_of row c.field) c.value)

mentions-changed :
    (field : String) (row : Session) (cs : List Change)
    → mentions field cs ≡ false
    → mentions field (where_rows (differs row) cs) ≡ false
unfolding where_rows
mentions-changed field row [] h = refl
mentions-changed field row (c ∷ cs) h = ground (arith, h, mentions-changed field row cs)

asked-cons :
    (field : String) (c : Change) (cs : List Change) (old : Option String)
    → (c.field == field) ≡ true
    → asked field (c ∷ cs) old ≡ asked field cs c.value
asked-cons field c cs old mine = ap (λ b. asked field cs (if b then c.value else old)) mine

asked-other :
    (field : String) (c : Change) (cs : List Change) (old : Option String)
    → (c.field == field) ≡ false
    → asked field (c ∷ cs) old ≡ asked field cs old
asked-other field c cs old other = ap (λ b. asked field cs (if b then c.value else old)) other

-- Leaving out what does not differ changes nothing.
pub asked-changed :
    (field : String) (row : Session) (cs : List Change)
    → is_dict cs ≡ true
    → asked field (where_rows (differs row) cs) (value_of row field)
      ≡ asked field cs (value_of row field)
unfolding where_rows
asked-changed field row [] dict = refl
asked-changed field row (c ∷ cs) dict =
    let alone : mentions c.field cs ≡ false = ground (arith, dict) in
    let rest = asked-changed field row cs (ground (arith, dict)) in
    let kept = where_rows (differs row) cs in
    let old = value_of row field in
    let split : Bool → Option String = λ b. asked field (if b then c ∷ kept else kept) old in
    elim (Bool-cases (c.field == field)) [
      | inr other ↦
          let skip = asked-other field c kept old other in
          let whole = rest ∙ sym (asked-other field c cs old other) in
          elim (Bool-cases (differs row c)) [
            | inl new ↦ ap split new ∙ skip ∙ whole
            | inr same ↦ ap split same ∙ whole
          ]
      | inl mine ↦
          let alone' : mentions field cs ≡ false =
            ap (λ f. mentions f cs) (sym (eq_of_beq c.field field mine)) ∙ alone in
          let none_left = mentions-changed field row cs alone' in
          let whole = asked-cons field c cs old mine ∙ asked-unmentioned field cs c.value alone' in
          elim (Bool-cases (differs row c)) [
            | inl new ↦
                ap split new
                ∙ asked-cons field c kept old mine
                ∙ asked-unmentioned field kept c.value none_left
                ∙ sym whole
            | inr same ↦
                let value : old ≡ c.value =
                  ap (value_of row) (sym (eq_of_beq c.field field mine))
                  ∙ same_value-eq (value_of row c.field) c.value (ground (arith, same)) in
                ap split same ∙ asked-unmentioned field kept old none_left ∙ value ∙ sym whole
          ]
    ]

pub all_fit-changed :
    (row : Session) (cs : List Change)
    → all_fit cs ≡ true
    → all_fit (where_rows (differs row) cs) ≡ true
unfolding where_rows
all_fit-changed row [] fits = refl
all_fit-changed row (c ∷ cs) fits = elim (Bool-cases (differs row c)) [
  | inl new ↦ rw new (ground (arith, fits, all_fit-changed row cs))
  | inr old ↦ rw old (all_fit-changed row cs (ground (arith, fits)))
]

pub normalized-all_fit : (cs : List Change) → normalize_metadata cs ≡ ok cs → all_fit cs ≡ true
unfolding normalize_metadata
normalized-all_fit [] h = refl
normalized-all_fit (c ∷ cs) h = ground (arith, h)
