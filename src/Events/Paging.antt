-- ===== src/Events/Paging.antt =====
-- What a page of `read_session` holds, where the session's events are numbered without a gap.
use mechagnome.Events.Gapless.{Numbered}
use mechagnome.Base.{
  ℕ, zero, suc, ◌+◌, ◌-◌, ◌<◌, ◌≡◌, refl, ap, ◌∙◌, inl, inr, true, false, none, some, List, [], ◌∷◌,
  arith, ltb, leb, nat_eq, string_eq, if◌then◌else◌, Bool-cases,
}
use mechagnome.Base.Rows.{where_rows, length}
use mechagnome.Schema.{Event}
use mechagnome.Events.{insert_by_seq, sort_by_seq, take, last_seq_of, Page, page_limit, page_of}

abbrev pub drop {ℓ} : {A : Type ℓ} → ℕ → List A → List A
drop zero xs = xs
drop (suc n) [] = []
drop (suc n) (x ∷ xs) = drop n xs

pub Numbered-drop :
    (n k m : ℕ) (xs : List Event) → m ≡ k + n → Numbered k xs → Numbered m (drop n xs)
Numbered-drop zero k m xs e h = let same : m ≡ k = omega arith in rw same h
Numbered-drop (suc n) k m [] e h = tt
Numbered-drop (suc n) k m (x ∷ xs) e h = Numbered-drop n (suc k) m xs (omega arith) h.1

refl_drop : (n : ℕ) → [] ≡ drop {A = Event} n []
refl_drop zero = refl
refl_drop (suc n) = refl

above-drop :
    (after k : ℕ) (xs : List Event)
    → Numbered (suc k) xs
    → where_rows (λ e. ltb after e.seq) xs ≡ drop (after - k) xs
unfolding where_rows
above-drop after k [] h = refl_drop (after - k)
above-drop after k (x ∷ xs) h = elim (Bool-cases (leb after k)) [
  | inl low ↦
      let all : after - k ≡ 0 = ground arith in
      let rest : after - suc k ≡ 0 = ground arith in
      let kept : ltb after x.seq ≡ true = ground arith in
      rw (kept, above-drop after (suc k) xs h.1, all, rest) refl
  | inr high ↦
      let gone : ltb after x.seq ≡ false = ground arith in
      let next : after - k ≡ suc (after - suc k) = ground arith in
      rw (gone, above-drop after (suc k) xs h.1, next) refl
]

insert_by_seq-Numbered :
    (k : ℕ) (e : Event) (xs : List Event)
    → e.seq ≡ k
    → Numbered (suc k) xs
    → insert_by_seq e xs ≡ e ∷ xs
unfolding insert_by_seq
insert_by_seq-Numbered k e [] p h = refl
insert_by_seq-Numbered k e (x ∷ xs) p h = ground arith

sort_by_seq-Numbered : (k : ℕ) (xs : List Event) → Numbered k xs → sort_by_seq xs ≡ xs
unfolding sort_by_seq
sort_by_seq-Numbered k [] h = refl
sort_by_seq-Numbered k (x ∷ xs) h =
    rw (sort_by_seq-Numbered (suc k) xs h.1) (insert_by_seq-Numbered k x xs h.0 h.1)

take-take : (n : ℕ) (xs : List Event) → take n (take (suc n) xs) ≡ take n xs
take-take zero xs = refl
take-take (suc n) [] = refl
take-take (suc n) (x ∷ xs) = ap (◌∷◌ x) (take-take n xs)

ltb-length-take : (n : ℕ) (xs : List Event) → ltb n (length (take (suc n) xs)) ≡ ltb n (length xs)
ltb-length-take zero [] = refl
ltb-length-take zero (x ∷ xs) = ground arith
ltb-length-take (suc n) [] = refl
ltb-length-take (suc n) (x ∷ xs) = ground (arith, ltb-length-take n xs)

last_seq_of-take :
    (n k : ℕ) (xs : List Event)
    → Numbered (suc k) xs
    → suc n < length xs
    → last_seq_of (take (suc n) xs) ≡ some (k + suc n)
last_seq_of-take zero k (x ∷ xs) h lt = ground arith
last_seq_of-take (suc n) k (x ∷ y ∷ xs) h lt =
    ground (arith, last_seq_of-take n (suc k) (y ∷ xs) h.1)
last_seq_of-take n k xs h lt = absurd (omega arith)

page_end :
    (n after : ℕ) (ys : List Event)
    → 0 < n
    → Numbered (suc after) ys
    → ◌≡◌ {A = Page}
        (record {
          events = take n (take (suc n) ys);
          next_after =
              if ltb n (length (take (suc n) ys))
              then last_seq_of (take n (take (suc n) ys))
              else none;
        })
        (record {
          events = take n ys;
          next_after = if ltb n (length ys) then some (after + n) else none;
        })
page_end zero after ys lt h = absurd (omega arith)
page_end (suc n) after ys lt h =
    rw (take-take (suc n) ys, ltb-length-take (suc n) ys)
      (elim (Bool-cases (ltb (suc n) (length ys))) [
        | inl more ↦ rw (more, last_seq_of-take n after ys h (ground arith)) refl
        | inr end ↦ rw end refl
      ])

-- With gapless numbers, a page holds the events right after `after`, in order and up to the limit,
-- and names the last one exactly when more follow.
pub page_of-Numbered :
    (xs : List Event) (after limit : ℕ)
    → Numbered 1 xs
    → page_of xs after limit ≡ record {
      events = take (page_limit limit) (drop after xs);
      next_after =
          if ltb (page_limit limit) (length (drop after xs))
          then some (after + page_limit limit)
          else none;
    }
unfolding page_of
page_of-Numbered xs after limit h =
    let cut : where_rows (λ e. ltb after e.seq) xs ≡ drop after xs =
      above-drop after 0 xs h ∙ ap (λ (m : ℕ). drop m xs) (omega arith) in
    let rest : Numbered (suc after) (drop after xs) =
      Numbered-drop after 1 (suc after) xs (omega arith) h in
    rw (cut, sort_by_seq-Numbered (suc after) (drop after xs) rest)
      (page_end (page_limit limit) after (drop after xs) (omega arith) rest)
