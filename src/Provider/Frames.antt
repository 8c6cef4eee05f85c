-- ===== src/Provider/Frames.antt =====
-- src/mechagnome/model_provider.py: the frames between a tool process and its host, `_encode_frame`,
-- `_receive_exact` and `_receive_frame`. JSON is a parameter: `dumps` gives the UTF-8 bytes of a payload
-- or fails, and `loads` reads bytes. A connection is the list of the chunks that `recv` is going to return;
-- an empty chunk, and the end of the list, is the end of the stream.
pub mod RoundTrip
use mechagnome.Base.{
  ℕ, zero, suc, ◌+◌, ◌-◌, ◌*◌, ◌/◌, ◌%◌, ◌^◌, ◌≤◌, ◌<◌, min, max, String, ◌≡◌, refl, sym, ap, ◌∙◌,
  ◌≢◌, ◌↔◌, ◌⊎◌, inl, inr, Bool, true, false, not, ◌&&◌, ◌||◌, Option, none, some, List, [], ◌∷◌,
  ◌++◌, map, arith, ltb, leb, ◌==◌, nat_eq, string_eq, beq_refl, eq_of_beq, ne_of_beq, beq_of_ne,
  beq_sym, if◌then◌else◌, Bool-cases, Option-cases,
}
use mechagnome.Base.Rows.{length, find, where_rows, delete_rows, is_some}

abbrev pub max_frame_bytes : ℕ
max_frame_bytes = 1024 * 1024 + 4096

pub data Failure : Type 0 where
  -- `model_provider_protocol`
  protocol : Failure

pub data Outcome (A : Type 0) : Type 0 where
  done : A → Outcome A
  raised : Failure → Outcome A

-- `struct.Struct("!I").pack`: four bytes, the most significant first.
unfoldable pub pack : ℕ → List ℕ
pack n = n / 16777216 % 256 ∷ n / 65536 % 256 ∷ n / 256 % 256 ∷ n % 256 ∷ []

unfoldable pub unpack : List ℕ → Option ℕ
unpack (a ∷ b ∷ c ∷ d ∷ []) = some (a * 16777216 + b * 65536 + c * 256 + d)
unpack _ = none

abbrev pub take : ℕ → List ℕ → List ℕ
take zero xs = []
take (suc n) [] = []
take (suc n) (x ∷ xs) = x ∷ take n xs

abbrev pub drop : ℕ → List ℕ → List ℕ
drop zero xs = xs
drop (suc n) [] = []
drop (suc n) (x ∷ xs) = drop n xs

-- The chunks that are left.
abbrev pub Stream : Type 0
Stream = List (List ℕ)

-- What `recv(n)` leaves of the first chunk for the next call.
abbrev pub push_back : List ℕ → Stream → Stream
push_back [] s = s
push_back (b ∷ bs) s = (b ∷ bs) ∷ s

-- The loop of `_receive_exact`: `need` bytes are still missing, and `got` says whether any came.
unfoldable pub receive_more : ℕ → Bool → (need : ℕ) → Stream → Outcome (Option (List ℕ) × Stream)
receive_more zero got need s = raised protocol
receive_more (suc fuel) got zero s = done (some [], s)
receive_more (suc fuel) got (suc need) [] = if got then raised protocol else done (none, [])
receive_more (suc fuel) got (suc need) ([] ∷ s) = if got then raised protocol else done (none, s)
receive_more (suc fuel) got (suc need) ((b ∷ bs) ∷ s) =
    elim (receive_more fuel true (suc need - length (take (suc need) (b ∷ bs)))
      (push_back (drop (suc need) (b ∷ bs)) s)) [
        | raised e ↦ raised e
        | done (none, s') ↦ done (none, s')
        | done (some rest, s') ↦ done (some (take (suc need) (b ∷ bs) ++ rest), s')
      ]

-- `_receive_exact`; each round takes at least one byte.
unfoldable pub receive_exact :
    (allow_initial_eof : Bool) → ℕ → Stream → Outcome (Option (List ℕ) × Stream)
unfolding receive_more
receive_exact allow size s = receive_more (suc size) (not allow) size s

module _ {P : Type 0} (dumps : P → Option (List ℕ)) (loads : List ℕ → Option P) where
  -- `_encode_frame`
  unfoldable pub encode_frame : P → Outcome (List ℕ)
  encode_frame payload = elim (dumps payload) [
    | none ↦ raised protocol
    | some bytes ↦
        if ltb max_frame_bytes (length bytes)
        then raised protocol
        else done (pack (length bytes) ++ bytes)
  ]

  unfoldable pub read_payload : Outcome (Option (List ℕ) × Stream) → Outcome (Option P × Stream)
  read_payload (raised e) = raised e
  read_payload (done (none, s)) = raised protocol
  read_payload (done (some bytes, s)) = elim (loads bytes) [
    | none ↦ raised protocol
    | some p ↦ done (some p, s)
  ]

  -- The size of the frame, and the payload.
  unfoldable pub read_body : List ℕ → Stream → Outcome (Option P × Stream)
  unfolding read_payload
  read_body header s = elim (unpack header) [
    | none ↦ raised protocol
    | some size ↦
        if ltb max_frame_bytes size
        then raised protocol
        else read_payload (receive_exact false size s)
  ]

  -- `_receive_frame`
  unfoldable pub receive_frame : Bool → Stream → Outcome (Option P × Stream)
  unfolding read_body
  receive_frame allow s = elim (receive_exact allow 4 s) [
    | raised e ↦ raised e
    | done (none, s') ↦ done (none, s')
    | done (some header, s') ↦ read_body header s'
  ]
