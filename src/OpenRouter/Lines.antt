-- ===== src/OpenRouter/Lines.antt =====
-- The lines of a streamed response do not depend on its chunks.
use mechagnome.Base.{
  true, false, ◌+◌, ◌≤◌, String, ltb, ℕ, zero, suc, ◌<◌, ◌≡◌, refl, sym, ap, ◌∙◌, inl, inr, Option,
  none, some, List, [], ◌∷◌, ◌++◌, arith, ◌==◌, nat_eq, if◌then◌else◌, Bool-cases, Option-cases,
}
use mechagnome.Base.Rows.{length}
use mechagnome.OpenRouter.Items.{Codec}
use mechagnome.OpenRouter.Failures.{answered, failed}
use mechagnome.OpenRouter.Stream.{
  cut_line, split_lines, read_chunk, Chunk, Assembly, Read, Step, after_step, fresh, then_read,
  on_line, on_lines, on_chunks, max_stream_bytes,
}
use mechagnome.OpenRouter.Turn.{response_events, stream_response}

-- One pass over the bytes, with the line so far.
unfoldable pub lines_from : List ℕ → List ℕ → List (List ℕ) × List ℕ
lines_from line [] = ([], line)
lines_from line (b ∷ bs) =
    if b == 10
    then (let (lines, left) = lines_from [] bs in (line ∷ lines, left))
    else lines_from (line ++ (b ∷ [])) bs

append_assoc : (xs ys zs : List ℕ) → (xs ++ ys) ++ zs ≡ xs ++ (ys ++ zs)
append_assoc [] ys zs = refl
append_assoc (x ∷ xs) ys zs = ap (λ l. x ∷ l) (append_assoc xs ys zs)

append_nil : {A : Type 0} (xs : List A) → xs ++ [] ≡ xs
append_nil [] = refl
append_nil (x ∷ xs) = ap (λ l. x ∷ l) (append_nil xs)

-- What a cut leaves is shorter.
cut_line-shorter :
    (before xs line rest : List ℕ)
    → cut_line before xs ≡ some (line, rest)
    → length rest < length xs
unfolding cut_line
cut_line-shorter before [] line rest found = absurd (ground arith)
cut_line-shorter before (b ∷ bs) line rest found = elim (Bool-cases (b == 10)) [
  | inl newline ↦
      let same : ◌≡◌ {A = Option (List ℕ × List ℕ)} (some (before, bs)) (some (line, rest)) =
        rw newline at found in
      let left : bs ≡ rest = ground arith in rw (sym left) (omega arith)
  | inr other ↦
      let found' : cut_line (before ++ (b ∷ [])) bs ≡ some (line, rest) = rw other at found in
      omega (arith, cut_line-shorter (before ++ (b ∷ [])) bs line rest found')
]

-- The one pass, by its first cut.
lines_from-some :
    (line xs first rest : List ℕ)
    → cut_line line xs ≡ some (first, rest)
    → lines_from line xs ≡ (first ∷ (lines_from [] rest).0, (lines_from [] rest).1)
unfolding cut_line lines_from
lines_from-some line [] first rest found = absurd (ground arith)
lines_from-some line (b ∷ bs) first rest found = elim (Bool-cases (b == 10)) [
  | inl newline ↦
      let same : ◌≡◌ {A = Option (List ℕ × List ℕ)} (some (line, bs)) (some (first, rest)) =
        rw newline at found in
      let whole : line ≡ first = ground arith in
      let left : bs ≡ rest = ground arith in rw (newline, whole, left) refl
  | inr other ↦ rw other (lines_from-some (line ++ (b ∷ [])) bs first rest (rw other at found))
]

lines_from-none :
    (line xs : List ℕ) → cut_line line xs ≡ none → lines_from line xs ≡ ([], line ++ xs)
unfolding cut_line lines_from
lines_from-none line [] found = ap (λ l. ([], l)) (sym (append_nil line))
lines_from-none line (b ∷ bs) found = elim (Bool-cases (b == 10)) [
  | inl newline ↦ absurd (ground (arith, rw newline at found))
  | inr other ↦ rw other (
      lines_from-none (line ++ (b ∷ [])) bs (rw other at found)
      ∙ ap (λ l. ([], l)) (append_assoc line (b ∷ []) bs))
]

split_lines-lines_from :
    (fuel : ℕ) (xs : List ℕ) → length xs < fuel → split_lines fuel xs ≡ lines_from [] xs
unfolding split_lines
split_lines-lines_from zero xs enough = absurd (omega arith)
split_lines-lines_from (suc fuel) xs enough = elim (Option-cases (cut_line [] xs)) [
  | inl whole ↦ rw (split_lines, whole) (sym (lines_from-none [] xs whole))
  | inr ((line, rest), cut) ↦
      let shorter = cut_line-shorter [] xs line rest cut in
      rw (split_lines, cut, split_lines-lines_from fuel rest (omega (arith, shorter)))
        (sym (lines_from-some [] xs line rest cut))
]

lines_from-append :
    (line xs ys : List ℕ)
    → lines_from line (xs ++ ys) ≡ (
      (lines_from line xs).0 ++ (lines_from (lines_from line xs).1 ys).0,
      (lines_from (lines_from line xs).1 ys).1,
    )
unfolding lines_from
lines_from-append line [] ys = refl
lines_from-append line (b ∷ bs) ys = elim (Bool-cases (b == 10)) [
  | inl newline ↦ rw (newline, lines_from-append [] bs ys) refl
  | inr other ↦ rw other (lines_from-append (line ++ (b ∷ [])) bs ys)
]

-- A line without its newline.
abbrev Open : List ℕ → Type 0
Open line = lines_from [] line ≡ ([], line)

lines_from-Open : (line xs : List ℕ) → Open line → Open (lines_from line xs).1
unfolding lines_from
lines_from-Open line [] open_ = open_
lines_from-Open line (b ∷ bs) open_ = elim (Bool-cases (b == 10)) [
  | inl newline ↦ rw newline (lines_from-Open [] bs refl)
  | inr other ↦ rw other (
      lines_from-Open (line ++ (b ∷ [])) bs
        (lines_from-append [] line (b ∷ []) ∙ rw (open_, other) refl))
]

read_chunk-lines_from :
    (buffer chunk : List ℕ) → Open buffer → read_chunk buffer chunk ≡ lines_from buffer chunk
unfolding read_chunk
read_chunk-lines_from buffer chunk open_ =
    split_lines-lines_from (suc (length (buffer ++ chunk))) (buffer ++ chunk) (omega arith)
    ∙ lines_from-append [] buffer chunk
    ∙ rw open_ refl

abbrev pub concat : List Chunk → List ℕ
concat [] = []
concat (chunk ∷ chunks) = chunk.bytes ++ concat chunks

-- No chunk came after the deadline.
abbrev pub InTime : List Chunk → Type 0
InTime [] = Unit {0}
InTime (chunk ∷ chunks) = (chunk.late ≡ false) × InTime chunks

abbrev pub at_once : List ℕ → Chunk
at_once bytes = record { late = false; bytes = bytes }

length-append : (xs ys : List ℕ) → length (xs ++ ys) ≡ length xs + length ys
length-append [] ys = omega arith
length-append (x ∷ xs) ys = omega (arith, length-append xs ys)

then_read-cons :
    (c : Codec) (t : String) (r : Read) (rest : Assembly → Read)
    → then_read c (t ∷ r.0, r.1) rest ≡ (t ∷ (then_read c r rest).0, (then_read c r rest).1)
then_read-cons c t (texts, failed e) rest = refl
then_read-cons c t (texts, answered s) rest = refl

module _ (c : Codec) where
  on_lines-over :
      (lines : List (List ℕ)) (s : Assembly)
      → s.saw_done ≡ true
      → on_lines c lines s ≡ ([], answered s)
  unfolding on_lines
  on_lines-over [] s over = refl
  on_lines-over (line ∷ lines) s over =
      ap
        (λ b. elim b as (λ x. Read) [
          | true ↦ ([], answered s)
          | false ↦ after_step (on_line c line s) (on_lines c lines)
        ])
        over

  open_step :
      (line : List ℕ) (lines : List (List ℕ)) (s : Assembly)
      → s.saw_done ≡ false
      → on_lines c (line ∷ lines) s ≡ after_step (on_line c line s) (on_lines c lines)
  unfolding on_lines
  open_step line lines s open_ =
      ap
        (λ b. elim b as (λ x. Read) [
          | true ↦ ([], answered s)
          | false ↦ after_step (on_line c line s) (on_lines c lines)
        ])
        open_

  after_step-then_read :
      (x : Step) (f g : Assembly → Read) (rest : Assembly → Read)
      → ((s : Assembly) → f s ≡ then_read c (g s) rest)
      → after_step x f ≡ then_read c (after_step x g) rest
  after_step-then_read (failed e) f g rest same = refl
  after_step-then_read (answered (none, s)) f g rest same = same s
  after_step-then_read (answered (some t, s)) f g rest same =
      ap (λ (r : Read). (t ∷ r.0, r.1)) (same s) ∙ sym (then_read-cons c t (g s) rest)

  on_lines-append :
      (xs ys : List (List ℕ)) (s : Assembly)
      → on_lines c (xs ++ ys) s ≡ then_read c (on_lines c xs s) (on_lines c ys)
  unfolding on_lines
  on_lines-append [] ys s = refl
  on_lines-append (x ∷ xs) ys s = elim (Bool-cases s.saw_done) [
    | inl over ↦
        on_lines-over (x ∷ (xs ++ ys)) s over
        ∙ sym (
            ap (λ r. then_read c r (on_lines c ys)) (on_lines-over (x ∷ xs) s over)
            ∙ on_lines-over ys s over)
    | inr open_ ↦
        open_step x (xs ++ ys) s open_
        ∙ after_step-then_read (on_line c x s) (on_lines c (xs ++ ys)) (on_lines c xs)
            (on_lines c ys) (on_lines-append xs ys)
        ∙ sym (ap (λ r. then_read c r (on_lines c ys)) (open_step x xs s open_))
  ]

  -- What the loop over the chunks does after one of them.
  next_chunk :
      (s : Assembly) (left chunk : Read)
      → (s.saw_done ≡ true → left ≡ ([], answered s))
      → (s.saw_done ≡ false → left ≡ chunk)
      → elim s.saw_done as (λ x. Read) [ true ↦ ([], answered s) | false ↦ chunk ] ≡ left
  next_chunk s left chunk over open_ = elim (Bool-cases s.saw_done) [
    | inl b ↦
        ap (λ b. elim b as (λ x. Read) [ true ↦ ([], answered s) | false ↦ chunk ]) b ∙ sym (over b)
    | inr b ↦
        ap (λ b. elim b as (λ x. Read) [ true ↦ ([], answered s) | false ↦ chunk ]) b
        ∙ sym (open_ b)
  ]

  on_chunks-lines_from :
      (size : ℕ) (buffer : List ℕ) (chunks : List Chunk) (s : Assembly)
      → Open buffer
      → InTime chunks
      → size + length (concat chunks) ≤ max_stream_bytes
      → on_chunks c size buffer chunks s ≡ on_lines c (lines_from buffer (concat chunks)).0 s
  unfolding on_chunks lines_from on_lines
  on_chunks-lines_from size buffer [] s open_ in_time small = refl
  on_chunks-lines_from size buffer (chunk ∷ chunks) s open_ (soon, in_time) small =
      let room : (ltb max_stream_bytes (size + length chunk.bytes)) ≡ false =
        ground (arith, small, length-append chunk.bytes (concat chunks)) in
      let now = lines_from buffer chunk.bytes in
      let later = lines_from now.1 (concat chunks) in
      let rest : (s' : Assembly)
          → elim s'.saw_done as (λ x. Read) [
            | true ↦ ([], answered s')
            | false ↦ on_chunks c (size + length chunk.bytes) now.1 chunks s'
          ]
            ≡ on_lines c later.0 s' =
        λ s'.
          next_chunk s' (on_lines c later.0 s')
            (on_chunks c (size + length chunk.bytes) now.1 chunks s') (on_lines-over later.0 s')
            λ _. sym (
              on_chunks-lines_from (size + length chunk.bytes) now.1 chunks s'
                (lines_from-Open buffer chunk.bytes open_) in_time
                (omega (arith, small, length-append chunk.bytes (concat chunks)))) in
      rw (soon, room)
        (ap
            (λ (r : List (List ℕ) × List ℕ). then_read c (on_lines c r.0 s) λ s'.
              elim s'.saw_done as (λ x. Read) [
                | true ↦ ([], answered s')
                | false ↦ on_chunks c (size + length chunk.bytes) r.1 chunks s'
              ])
            (read_chunk-lines_from buffer chunk.bytes open_)
          ∙ ap (then_read c (on_lines c now.0 s)) (λ i s'. rest s' i)
          ∙ sym (on_lines-append now.0 later.0 s)
          ∙ ap (λ (r : List (List ℕ) × List ℕ). on_lines c r.0 s)
              (sym (lines_from-append buffer chunk.bytes (concat chunks))))

-- However the bytes of a streamed response are cut into chunks, the same events are yielded, and the
-- same error is raised, if any, as when they come at once, if they are within the size limit and no
-- chunk comes after the deadline.
pub stream_response-concat :
    (c : Codec) (chunks : List Chunk)
    → InTime chunks
    → length (concat chunks) ≤ max_stream_bytes
    → stream_response c chunks ≡ stream_response c (at_once (concat chunks) ∷ [])
unfolding stream_response lines_from
stream_response-concat c chunks in_time small =
    let whole = concat chunks in
    let same : concat (at_once whole ∷ []) ≡ whole = append_nil whole in
    let once =
      on_chunks-lines_from c 0 [] (at_once whole ∷ []) fresh refl (refl, tt)
        (omega (arith, small, ap length same)) in
    let all = on_chunks-lines_from c 0 [] chunks fresh refl in_time (omega (arith, small)) in
    ap (response_events c)
      (all ∙ ap (λ l. on_lines c (lines_from [] l).0 fresh) (sym same) ∙ sym once)
