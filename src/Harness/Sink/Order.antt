-- ===== src/Harness/Sink/Order.antt =====
-- The order in which an ordered sink passes records on.
use mechagnome.Base.{
  ℕ, zero, suc, ◌≤◌, ◌<◌, ◌≡◌, refl, inl, inr, Bool, none, some, List, [], ◌∷◌, ◌++◌, arith, ltb,
  nat_eq, string_eq, Bool-cases, Option-cases,
}
use mechagnome.Base.Rows.{length, find, find_sound, where_rows, delete_rows}
use mechagnome.Harness.Sink.{Pending, Sink, at_seq, put_pending, drain, accept, accept_all}

-- Numbers that follow one another, from `n` up to the one before `m`.
abbrev pub Follows : ℕ → List Pending → ℕ → Type 0
Follows n [] m = n ≡ m
Follows n (p ∷ ps) m = (p.seq ≡ n) × Follows (suc n) ps m

pub Follows-append :
    (n k m : ℕ) (xs ys : List Pending) → Follows n xs k → Follows k ys m → Follows n (xs ++ ys) m
Follows-append n k m [] ys h h' = rw h h'
Follows-append n k m (x ∷ xs) ys h h' = (h.0, Follows-append (suc n) k m xs ys h.1 h')

drain-Follows :
    (fuel : ℕ) (s : Sink) → Follows s.next_sequence (drain fuel s).0 (drain fuel s).1.next_sequence
unfolding drain
drain-Follows zero s = refl
drain-Follows (suc fuel) s = elim (Option-cases (find (at_seq s.next_sequence) s.pending)) [
  | inl gone ↦ rw (gone, drain) refl
  | inr (p, found) ↦
      let next : Sink = record {
        next_sequence = suc s.next_sequence;
        pending = delete_rows (at_seq s.next_sequence) s.pending;
      } in
      let number = find_sound (at_seq s.next_sequence) s.pending p found in
      rw (found, drain) (ground arith, drain-Follows fuel next)
]

length-delete-le : (p : Pending → Bool) (xs : List Pending) → length (delete_rows p xs) ≤ length xs
unfolding delete_rows where_rows
length-delete-le p [] = omega arith
length-delete-le p (x ∷ xs) = ground (arith, length-delete-le p xs)

length-delete-lt :
    (p : Pending → Bool) (xs : List Pending) (x : Pending)
    → find p xs ≡ some x
    → length (delete_rows p xs) < length xs
unfolding delete_rows where_rows find
length-delete-lt p [] x h = absurd (ground arith)
length-delete-lt p (y ∷ ys) x h = ground (arith, length-delete-lt p ys x, length-delete-le p ys)

-- Nothing that could go out is waiting.
abbrev pub IsIdle : Sink → Type 0
IsIdle s = find (at_seq s.next_sequence) s.pending ≡ none

drain-IsIdle : (fuel : ℕ) (s : Sink) → length s.pending < fuel → IsIdle (drain fuel s).1
unfolding drain
drain-IsIdle zero s h = absurd (omega arith)
drain-IsIdle (suc fuel) s h = elim (Option-cases (find (at_seq s.next_sequence) s.pending)) [
  | inl gone ↦ rw (gone, drain) gone
  | inr (p, found) ↦
      let next : Sink = record {
        next_sequence = suc s.next_sequence;
        pending = delete_rows (at_seq s.next_sequence) s.pending;
      } in
      rw (found, drain)
        (drain-IsIdle fuel next
          (omega (arith, length-delete-lt (at_seq s.next_sequence) s.pending p found)))
]

accept-Follows :
    (s : Sink) (p : Pending) → Follows s.next_sequence (accept s p).0 (accept s p).1.next_sequence
unfolding accept
accept-Follows s p = elim (Bool-cases (ltb p.seq s.next_sequence)) [
  | inl old ↦ rw old refl
  | inr new ↦ rw new (
      drain-Follows (suc (length (put_pending p s.pending)))
        (record s { pending = put_pending p s.pending }))
]

accept-IsIdle : (s : Sink) (p : Pending) → IsIdle s → IsIdle (accept s p).1
unfolding accept
accept-IsIdle s p idle = elim (Bool-cases (ltb p.seq s.next_sequence)) [
  | inl old ↦ rw old idle
  | inr new ↦ rw new (
      drain-IsIdle (suc (length (put_pending p s.pending)))
        (record s { pending = put_pending p s.pending }) (omega arith))
]

pub accept_all-ordered :
    (s : Sink) (ps : List Pending)
    → IsIdle s
    → Follows s.next_sequence (accept_all s ps).0 (accept_all s ps).1.next_sequence
      × IsIdle (accept_all s ps).1
unfolding accept_all
accept_all-ordered s [] idle = (refl, idle)
accept_all-ordered s (p ∷ ps) idle =
    let (rest, end) = accept_all-ordered (accept s p).1 ps (accept-IsIdle s p idle) in
    (
      Follows-append s.next_sequence (accept s p).1.next_sequence
          (accept_all (accept s p).1 ps).1.next_sequence (accept s p).0
          (accept_all (accept s p).1 ps).0 (accept-Follows s p) rest,
      end,
    )
