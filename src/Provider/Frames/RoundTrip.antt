-- ===== src/Provider/Frames/RoundTrip.antt =====
-- A frame that is sent is received, however the stream is cut into chunks.
use mathlib.Core.List.{append_assoc}
use mechagnome.Base.{
  ℕ, zero, suc, ◌+◌, ◌-◌, ◌≤◌, ◌<◌, ◌≡◌, refl, sym, ap, ◌∙◌, inl, inr, Bool, true, false, not,
  Option, some, List, [], ◌∷◌, ◌++◌, arith, ltb, nat_eq, string_eq, Option-cases,
}
use mechagnome.Base.Rows.{length}
use mechagnome.Provider.Frames.{
  max_frame_bytes, Outcome, done, pack, unpack, take, drop, Stream, push_back, receive_more,
  receive_exact, encode_frame, read_payload, read_body, receive_frame,
}

-- All bytes of a stream.
abbrev pub bytes_of : Stream → List ℕ
bytes_of [] = []
bytes_of (c ∷ s) = c ++ bytes_of s

abbrev is_cons : List ℕ → Bool
is_cons [] = false
is_cons (b ∷ bs) = true

-- No chunk is empty: the stream has not ended.
abbrev pub IsOpen : Stream → Type 0
IsOpen [] = Unit {0}
IsOpen (c ∷ s) = (is_cons c ≡ true) × IsOpen s

take-split :
    (n : ℕ) (xs ys : List ℕ)
    → take n (xs ++ ys) ≡ take n xs ++ take (n - length (take n xs)) (drop n xs ++ ys)
take-split zero xs ys = refl
take-split (suc n) [] ys = let e : suc n - 0 ≡ suc n = omega arith in rw e refl
take-split (suc n) (x ∷ xs) ys =
    ap (◌∷◌ x)
      (take-split n xs ys ∙ ap (λ (m : ℕ). take n xs ++ take m (drop n xs ++ ys)) (omega arith))

drop-split :
    (n : ℕ) (xs ys : List ℕ) → drop n (xs ++ ys) ≡ drop (n - length (take n xs)) (drop n xs ++ ys)
drop-split zero xs ys = refl
drop-split (suc n) [] ys = let e : suc n - 0 ≡ suc n = omega arith in rw e refl
drop-split (suc n) (x ∷ xs) ys =
    drop-split n xs ys ∙ ap (λ (m : ℕ). drop m (drop n xs ++ ys)) (omega arith)

bytes_of-push_back : (d : List ℕ) (s : Stream) → bytes_of (push_back d s) ≡ d ++ bytes_of s
bytes_of-push_back [] s = refl
bytes_of-push_back (b ∷ bs) s = refl

push_back-IsOpen : (d : List ℕ) (s : Stream) → IsOpen s → IsOpen (push_back d s)
push_back-IsOpen [] s h = h
push_back-IsOpen (b ∷ bs) s h = (refl, h)

length-split :
    (n : ℕ) (xs ys : List ℕ)
    → n ≤ length (xs ++ ys)
    → n - length (take n xs) ≤ length (drop n xs ++ ys)
length-split zero xs ys h = omega arith
length-split (suc n) [] ys h = omega arith
length-split (suc n) (x ∷ xs) ys h = omega (arith, length-split n xs ys (omega arith))

-- What a read of `need` bytes gives.
record Received (need : ℕ) (s : Stream) (o : Outcome (Option (List ℕ) × Stream)) : Type 0 where
  left : Stream
  came : o ≡ done (some (take need (bytes_of s)), left)
  rest : bytes_of left ≡ drop need (bytes_of s)
  opened : IsOpen left

receive_more_lem :
    (fuel : ℕ) (got : Bool) (need : ℕ) (s : Stream)
    → need < fuel
    → need ≤ length (bytes_of s)
    → IsOpen s
    → Received need s (receive_more fuel got need s)
unfolding receive_more
receive_more_lem zero got need s f h o = absurd (omega arith)
receive_more_lem (suc fuel) got zero s f h o = record {
  left = s;
  came = refl;
  rest = refl;
  opened = o;
}
receive_more_lem (suc fuel) got (suc need) [] f h o = absurd (omega arith)
receive_more_lem (suc fuel) got (suc need) ([] ∷ s) f h o = absurd (ground arith)
receive_more_lem (suc fuel) got (suc need) ((b ∷ bs) ∷ s) f h o =
    let d = drop need bs in
    let n = suc need - length (take (suc need) (b ∷ bs)) in
    let same = bytes_of-push_back d s in
    let r =
      receive_more_lem fuel true n (push_back d s) (omega arith)
        (rw same (length-split (suc need) (b ∷ bs) (bytes_of s) h)) (push_back-IsOpen d s o.1) in
    record {
      left = r.left;
      came =
          rw (r.came, receive_more)
            (ap (λ (z : List ℕ). done (some (take (suc need) (b ∷ bs) ++ z), r.left))
                (ap (take n) same)
              ∙ ap (λ (z : List ℕ). done (some z, r.left))
                  (sym (take-split (suc need) (b ∷ bs) (bytes_of s))));
      rest = r.rest ∙ ap (drop n) same ∙ sym (drop-split (suc need) (b ∷ bs) (bytes_of s));
      opened = r.opened;
    }

unpack-pack : (n : ℕ) → n < 4294967296 → unpack (pack n) ≡ some n
unfolding unpack pack
unpack-pack n h = ap some (omega arith)

take-append_length : (xs ys : List ℕ) → take (length xs) (xs ++ ys) ≡ xs
take-append_length [] ys = refl
take-append_length (x ∷ xs) ys = ap (◌∷◌ x) (take-append_length xs ys)

drop-append_length : (xs ys : List ℕ) → drop (length xs) (xs ++ ys) ≡ ys
drop-append_length [] ys = refl
drop-append_length (x ∷ xs) ys = drop-append_length xs ys

length-append : (xs ys : List ℕ) → length (xs ++ ys) ≡ length xs + length ys
length-append [] ys = omega arith
length-append (x ∷ xs) ys = omega (arith, length-append xs ys)

receive_exact_lem :
    (allow : Bool) (size : ℕ) (s : Stream)
    → size ≤ length (bytes_of s)
    → IsOpen s
    → Received size s (receive_exact allow size s)
unfolding receive_exact
receive_exact_lem allow size s h o =
    receive_more_lem (suc size) (not allow) size s (omega arith) h o

module _ {P : Type 0} (dumps : P → Option (List ℕ)) (loads : List ℕ → Option P) where
  encode_frame_inv :
      (payload : P) (frame : List ℕ)
      → encode_frame dumps loads payload ≡ done frame
      → (bytes : List ℕ) × (dumps payload ≡ some bytes)
        × (length bytes ≤ max_frame_bytes)
        × (frame ≡ pack (length bytes) ++ bytes)
  unfolding encode_frame
  encode_frame_inv payload frame h = elim (Option-cases (dumps payload)) [
    | inl bad ↦ absurd (ground arith)
    | inr (bytes, good) ↦ (bytes, good, ground arith, ground arith)
  ]

  header_of :
      (n : ℕ) (xs : List ℕ) → (take 4 (pack n ++ xs) ≡ pack n) × (drop 4 (pack n ++ xs) ≡ xs)
  unfolding pack
  header_of n xs = (refl, refl)

  length-pack : (n : ℕ) → length (pack n) ≡ 4
  unfolding pack
  length-pack n = refl

  read_body_steps :
      (header : List ℕ) (s : Stream) (size : ℕ) (bytes : List ℕ) (left : Stream) (payload : P)
      → unpack header ≡ some size
      → ltb max_frame_bytes size ≡ false
      → receive_exact false size s ≡ done (some bytes, left)
      → loads bytes ≡ some payload
      → read_body dumps loads header s ≡ done (some payload, left)
  unfolding read_body
  read_body_steps header s size bytes left payload h fits came inverse =
      rw (h, read_body) (rw (fits, came) (rw (inverse, read_payload) refl))

  receive_frame_steps :
      (allow : Bool) (s s' : Stream) (header : List ℕ) (o : Outcome (Option P × Stream))
      → receive_exact allow 4 s ≡ done (some header, s')
      → read_body dumps loads header s' ≡ o
      → receive_frame dumps loads allow s ≡ o
  unfolding receive_frame
  receive_frame_steps allow s s' header o came read = rw (came, receive_frame) read

  read_body_lem :
      (payload : P) (bytes rest : List ℕ) (s : Stream)
      → loads bytes ≡ some payload
      → length bytes ≤ max_frame_bytes
      → bytes_of s ≡ bytes ++ rest
      → IsOpen s
      → (left : Stream) × (read_body dumps loads (pack (length bytes)) s
          ≡ done (some payload, left))
        × (bytes_of left ≡ rest)
        × IsOpen left
  read_body_lem payload bytes rest s inverse fits whole opened =
      let got =
        receive_exact_lem false (length bytes) s
          (omega (arith, ap (length {A = ℕ}) whole, length-append bytes rest)) opened in
      let fits' : ltb max_frame_bytes (length bytes) ≡ false = ground arith in
      let taken : take (length bytes) (bytes_of s) ≡ bytes =
        ap (take (length bytes)) whole ∙ take-append_length bytes rest in
      (
        got.left,
        read_body_steps (pack (length bytes)) s (length bytes) bytes got.left payload
            (unpack-pack (length bytes) (omega arith)) fits'
            (got.came ∙ ap (λ (z : List ℕ). done (some z, got.left)) taken) inverse,
        got.rest ∙ ap (drop (length bytes)) whole ∙ drop-append_length bytes rest,
        got.opened,
      )

  -- A payload that could be encoded arrives as it was, and what follows it in the stream stays to
  -- be read, however the bytes are cut into chunks: the chunks are not empty, their bytes are the
  -- frame and then `rest`, and reading what was written for the payload gives the payload.
  pub receive-encode :
      (payload : P) (frame rest : List ℕ) (allow : Bool) (s : Stream)
      → encode_frame dumps loads payload ≡ done frame
      → ((bytes : List ℕ) → dumps payload ≡ some bytes → loads bytes ≡ some payload)
      → bytes_of s ≡ frame ++ rest
      → IsOpen s
      → (left : Stream) × (receive_frame dumps loads allow s ≡ done (some payload, left))
        × (bytes_of left ≡ rest)
        × IsOpen left
  receive-encode payload frame rest allow s encoded inverse whole opened =
      let (bytes, good, fits, shape) = encode_frame_inv payload frame encoded in
      let all : bytes_of s ≡ pack (length bytes) ++ (bytes ++ rest) =
        whole
        ∙ ap (λ (f : List ℕ). f ++ rest) shape
        ∙ append_assoc (pack (length bytes)) bytes rest in
      let got =
        receive_exact_lem allow 4 s
          (omega (
            arith,
            ap (length {A = ℕ}) all,
            length-append (pack (length bytes)) (bytes ++ rest),
            length-pack (length bytes),
          ))
          opened in
      let (head, tail) = header_of (length bytes) (bytes ++ rest) in
      let (left, read, after, opened') =
        read_body_lem payload bytes rest got.left (inverse bytes good) fits
          (got.rest ∙ ap (drop 4) all ∙ tail) got.opened in
      (
        left,
        receive_frame_steps allow s got.left (pack (length bytes)) (done (some payload, left))
            (got.came ∙ ap (λ (z : List ℕ). done (some z, got.left)) (ap (take 4) all ∙ head)) read,
        after,
        opened',
      )
