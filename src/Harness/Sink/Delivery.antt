-- ===== src/Harness/Sink/Delivery.antt =====
-- What becomes of the records that an ordered sink is given.
use mechagnome.Base.{
  ◌⊎◌, sym, ap, ◌∙◌, eq_of_beq, ℕ, zero, suc, ◌<◌, ◌≡◌, refl, inl, inr, Bool, true, Option, some,
  List, [], ◌∷◌, ◌++◌, arith, ltb, ◌==◌, nat_eq, string_eq, Bool-cases, Option-cases,
}
use mechagnome.Base.Rows.{is_some, find-delete_other, length, find, where_rows, delete_rows}
use mechagnome.Harness.Sink.{Pending, Sink, at_seq, put_pending, drain, accept, accept_all}
use mechagnome.Harness.Sink.Order.{Follows, IsIdle, accept_all-ordered}

-- A record with the number is waiting, or the number has gone out.
abbrev Kept : ℕ → Sink → Type 0
Kept n s = (n < s.next_sequence) ⊎ (is_some (find (at_seq n) s.pending) ≡ true)

drain-Kept : (fuel : ℕ) (n : ℕ) (s : Sink) → Kept n s → Kept n (drain fuel s).1
unfolding drain
drain-Kept zero n s kept = kept
drain-Kept (suc fuel) n s kept = elim (Option-cases (find (at_seq s.next_sequence) s.pending)) [
  | inl gone ↦ rw (gone, drain) kept
  | inr (p, found) ↦
      let next : Sink = record {
        next_sequence = suc s.next_sequence;
        pending = delete_rows (at_seq s.next_sequence) s.pending;
      } in
      let kept' : Kept n next = elim kept [
        | inl before ↦ inl (omega arith)
        | inr waits ↦ elim (Bool-cases (s.next_sequence == n)) [
          | inl mine ↦ inl (ground (arith, eq_of_beq s.next_sequence n mine))
          | inr other ↦ inr (
              ap is_some (
                find-delete_other (at_seq n) (at_seq s.next_sequence)
                  (λ q there. ground (arith, eq_of_beq q.seq s.next_sequence there, other))
                  s.pending)
              ∙ waits)
        ]
      ] in
      rw (found, drain) (drain-Kept fuel n next kept')
]

put_pending-Kept :
    (n : ℕ) (p : Pending) (ps : List Pending)
    → (is_some (find (at_seq n) ps) ≡ true) ⊎ (p.seq ≡ n)
    → is_some (find (at_seq n) (put_pending p ps)) ≡ true
unfolding put_pending find
put_pending-Kept n p ps h = elim (Bool-cases (p.seq == n)) [
  | inl mine ↦ rw mine refl
  | inr other ↦
      let rest =
        find-delete_other (at_seq n) (at_seq p.seq)
          (λ q there. ground (arith, eq_of_beq q.seq p.seq there, other)) ps in
      elim h [
        | inl waits ↦ rw other (ap is_some rest ∙ waits)
        | inr same ↦ absurd (ground (arith, same, other))
      ]
]

accept-Kept : (n : ℕ) (s : Sink) (p : Pending) → Kept n s ⊎ (p.seq ≡ n) → Kept n (accept s p).1
unfolding accept
accept-Kept n s p h = elim (Bool-cases (ltb p.seq s.next_sequence)) [
  | inl old ↦
      rw old
        (elim h as (λ x. Kept n s) [ inl kept ↦ kept | inr same ↦ inl (ground (arith, old, same)) ])
  | inr new ↦
      let filled : Sink = record s { pending = put_pending p s.pending } in
      let kept : Kept n filled = elim h [
        | inl (inl before) ↦ inl before
        | inl (inr waits) ↦ inr (put_pending-Kept n p s.pending (inl waits))
        | inr same ↦ inr (put_pending-Kept n p s.pending (inr same))
      ] in
      rw new (drain-Kept (suc (length (put_pending p s.pending))) n filled kept)
]

accept_all-Kept :
    (n : ℕ) (s : Sink) (ps : List Pending)
    → Kept n s ⊎ (is_some (find (at_seq n) ps) ≡ true)
    → Kept n (accept_all s ps).1
unfolding accept_all find
accept_all-Kept n s [] (inl kept) = kept
accept_all-Kept n s [] (inr h) = absurd (ground arith)
accept_all-Kept n s (p ∷ ps) (inl kept) =
    accept_all-Kept n (accept s p).1 ps (inl (accept-Kept n s p (inl kept)))
accept_all-Kept n s (p ∷ ps) (inr h) = elim (Bool-cases (p.seq == n)) [
  | inl mine ↦
      accept_all-Kept n (accept s p).1 ps (inl (accept-Kept n s p (inr (eq_of_beq p.seq n mine))))
  | inr other ↦ accept_all-Kept n (accept s p).1 ps (inr (rw other at h))
]

-- What a sink lets out, it was given.
abbrev pub Each : (Pending → Type 0) → List Pending → Type 0
Each P [] = Unit {0}
Each P (p ∷ ps) = P p × Each P ps

Each-delete :
    (P : Pending → Type 0) (q : Pending → Bool) (ps : List Pending)
    → Each P ps
    → Each P (delete_rows q ps)
unfolding delete_rows where_rows
Each-delete P q [] h = tt
Each-delete P q (p ∷ ps) h = elim (Bool-cases (q p)) [
  | inl out ↦ rw out (Each-delete P q ps h.1)
  | inr kept ↦ rw kept (h.0, Each-delete P q ps h.1)
]

Each-find :
    (P : Pending → Type 0) (q : Pending → Bool) (ps : List Pending) (p : Pending)
    → Each P ps
    → find q ps ≡ some p
    → P p
unfolding find
Each-find P q [] p h found = absurd (ground arith)
Each-find P q (x ∷ ps) p h found = elim (Bool-cases (q x)) [
  | inl mine ↦
      let same : ◌≡◌ {A = Option Pending} (some x) (some p) = rw mine at found in
      let same' : x ≡ p = ground arith in rw (sym same') h.0
  | inr other ↦ Each-find P q ps p h.1 (rw other at found)
]

Each-append :
    (P : Pending → Type 0) (ps qs : List Pending) → Each P ps → Each P qs → Each P (ps ++ qs)
Each-append P [] qs h k = k
Each-append P (p ∷ ps) qs h k = (h.0, Each-append P ps qs h.1 k)

drain-Each :
    (P : Pending → Type 0) (fuel : ℕ) (s : Sink)
    → Each P s.pending
    → Each P (drain fuel s).0 × Each P (drain fuel s).1.pending
unfolding drain
drain-Each P zero s h = (tt, h)
drain-Each P (suc fuel) s h = elim (Option-cases (find (at_seq s.next_sequence) s.pending)) [
  | inl gone ↦ rw (gone, drain) (tt, h)
  | inr (p, found) ↦
      let next : Sink = record {
        next_sequence = suc s.next_sequence;
        pending = delete_rows (at_seq s.next_sequence) s.pending;
      } in
      let (out, left) =
        drain-Each P fuel next (Each-delete P (at_seq s.next_sequence) s.pending h) in
      rw (found, drain) ((Each-find P (at_seq s.next_sequence) s.pending p h found, out), left)
]

accept-Each :
    (P : Pending → Type 0) (s : Sink) (p : Pending)
    → Each P s.pending
    → P p
    → Each P (accept s p).0 × Each P (accept s p).1.pending
unfolding accept put_pending
accept-Each P s p h given = elim (Bool-cases (ltb p.seq s.next_sequence)) [
  | inl old ↦ rw old (tt, h)
  | inr new ↦ rw new (
      drain-Each P (suc (length (put_pending p s.pending)))
        (record s { pending = put_pending p s.pending })
        (given, Each-delete P (at_seq p.seq) s.pending h))
]

accept_all-Each :
    (P : Pending → Type 0) (s : Sink) (ps : List Pending)
    → Each P s.pending
    → Each P ps
    → Each P (accept_all s ps).0
unfolding accept_all
accept_all-Each P s [] h given = tt
accept_all-Each P s (p ∷ ps) h given =
    let (out, left) = accept-Each P s p h given.0 in
    Each-append P (accept s p).0 (accept_all (accept s p).1 ps).0 out
      (accept_all-Each P (accept s p).1 ps left given.1)

-- In whatever order the numbered records of several threads arrive, and however often, the inner
-- sink gets numbers that follow one another with no gap and no repetition, from the sink's first
-- number up to its next one; the next number is not waiting; a number that has arrived has gone out or
-- is waiting; and a property of all records that arrive or waited holds for all that go out.
pub accept_all-Follows :
    (s : Sink) (ps : List Pending)
    → IsIdle s
    → Follows s.next_sequence (accept_all s ps).0 (accept_all s ps).1.next_sequence
      × IsIdle (accept_all s ps).1
      × ((n : ℕ)
          → is_some (find (at_seq n) ps) ≡ true
          → (n < (accept_all s ps).1.next_sequence)
            ⊎ (is_some (find (at_seq n) (accept_all s ps).1.pending) ≡ true))
      × ((P : Pending → Type 0) → Each P s.pending → Each P ps → Each P (accept_all s ps).0)
accept_all-Follows s ps idle =
    let (order, end) = accept_all-ordered s ps idle in
    (
      order,
      end,
      λ n given. accept_all-Kept n s ps (inr given),
      λ P h given. accept_all-Each P s ps h given,
    )
