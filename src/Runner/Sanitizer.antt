-- ===== src/Runner/Sanitizer.antt =====
-- src/mechagnome/isolation.py, `_ControlSanitizer`. Text is a list of code points.
use mechagnome.Base.{
  ◌∙◌, ℕ, ◌≤◌, ◌<◌, ◌≡◌, refl, ◌⊎◌, inl, inr, Bool, true, false, not, ◌&&◌, ◌||◌, List, [], ◌∷◌,
  ◌++◌, arith, ltb, leb, ◌==◌, nat_eq, string_eq, if◌then◌else◌, Bool-cases,
}

pub data State : Type 0 where
  text escape csi osc osc_escape : State

-- `character in "\n\r\t" or 32 <= codepoint < 127 or codepoint >= 160`
unfoldable pub is_plain : ℕ → Bool
is_plain c = c == 10 || c == 13 || c == 9 || leb 32 c && ltb c 127 || leb 160 c

-- One round of the loop of `feed`: the next state.
unfoldable pub next_state : State → ℕ → State
next_state text c = if c == 0x1b then escape else text
next_state escape c = if c == b'[' then csi else if c == b']' then osc else text
next_state csi c = if leb b'@' c && leb c b'~' then text else csi
next_state osc c = if c == 7 then text else if c == 0x1b then osc_escape else osc
next_state osc_escape c = if c == 0x5c then text else osc

-- Is the character of this round kept?
unfoldable pub keeps : State → ℕ → Bool
unfolding is_plain
keeps text c = not (c == 0x1b) && is_plain c
keeps _ c = false

-- `_ControlSanitizer.feed`: the output, and the state that the object is left in.
unfoldable pub feed : State → List ℕ → List ℕ × State
unfolding next_state keeps
feed s [] = ([], s)
feed s (c ∷ cs) =
    let (out, s') = feed (next_state s c) cs in (if keeps s c then c ∷ out else out, s')

abbrev pub All {ℓ} : {A : Type ℓ} → (A → Type 0) → List A → Type 0
All P [] = Unit {0}
All P (x ∷ xs) = P x × All P xs

-- No character that could drive a terminal: below 160, only the printable ones of ASCII, newline,
-- carriage return and tab.
abbrev pub IsHarmless : ℕ → Type 0
IsHarmless c = (c ≡ 9) ⊎ (c ≡ 10) ⊎ (c ≡ 13) ⊎ ((32 ≤ c) × (c < 127)) ⊎ (160 ≤ c)

kept-IsHarmless : (s : State) (c : ℕ) → keeps s c ≡ true → IsHarmless c
unfolding keeps
kept-IsHarmless s c h = ground arith

-- Whatever is fed, in whatever state, only harmless characters come out.
pub feed-IsHarmless : (s : State) (cs : List ℕ) → All IsHarmless (feed s cs).0
unfolding feed
feed-IsHarmless s [] = tt
feed-IsHarmless s (c ∷ cs) = elim (Bool-cases (keeps s c)) [
  | inl kept ↦ rw kept (kept-IsHarmless s c kept, feed-IsHarmless (next_state s c) cs)
  | inr dropped ↦ rw dropped (feed-IsHarmless (next_state s c) cs)
]

-- Feeding two chunks one after the other gives the output of the whole, and leaves the same state.
feed-append :
    (s : State) (xs ys : List ℕ)
    → feed s (xs ++ ys) ≡ ((feed s xs).0 ++ (feed (feed s xs).1 ys).0, (feed (feed s xs).1 ys).1)
unfolding feed
feed-append s [] ys = refl
feed-append s (x ∷ xs) ys = elim (Bool-cases (keeps s x)) [
  | inl kept ↦ rw (kept, feed-append (next_state s x) xs ys) refl
  | inr dropped ↦ rw (dropped, feed-append (next_state s x) xs ys) refl
]

plain-kept : (c : ℕ) → is_plain c ≡ true → keeps text c ≡ true
unfolding keeps
plain-kept c h = ground arith

plain-stays : (c : ℕ) → is_plain c ≡ true → next_state text c ≡ text
unfolding next_state is_plain
plain-stays c h = ground arith

-- A text of plain characters passes unchanged, from the state in which an object starts.
feed_plain : (cs : List ℕ) → All (λ c. is_plain c ≡ true) cs → feed text cs ≡ (cs, text)
unfolding feed
feed_plain [] h = refl
feed_plain (c ∷ cs) h =
    let kept : keeps text c ≡ true = plain-kept c h.0 in
    let stays : next_state text c ≡ text = plain-stays c h.0 in
    rw (kept, stays, feed_plain cs h.1) refl

-- A character inside a control sequence, its last one, and a character of an operating system command.
abbrev pub IsParameter : ℕ → Type 0
IsParameter c = (c < 64) ⊎ (126 < c)

abbrev pub IsFinal : ℕ → Type 0
IsFinal c = (64 ≤ c) × (c ≤ 126)

abbrev pub IsBody : ℕ → Type 0
IsBody c = ((c == 7) ≡ false) × ((c == 0x1b) ≡ false)

-- The sequences of a terminal: `ESC [`, parameters and a final character, and `ESC ]` with a text and
-- a bell or `ESC \\`.
pub data IsSequence : List ℕ → Type 0 where
  control :
      (params : List ℕ) (final : ℕ)
      → All IsParameter params
      → IsFinal final
      → IsSequence (0x1b ∷ b'[' ∷ (params ++ (final ∷ [])))
  command_bell : (body : List ℕ) → All IsBody body → IsSequence (0x1b ∷ b']' ∷ (body ++ (7 ∷ [])))
  command_string :
      (body : List ℕ) → All IsBody body → IsSequence (0x1b ∷ b']' ∷ (body ++ (0x1b ∷ 0x5c ∷ [])))

csi-ends : (c : ℕ) → IsFinal c → next_state csi c ≡ text
unfolding next_state
csi-ends c f = ground (arith, f)

csi-stays : (c : ℕ) → IsParameter c → next_state csi c ≡ csi
unfolding next_state
csi-stays c f = ground (arith, f)

feed-parameters :
    (params : List ℕ) (final : ℕ)
    → All IsParameter params
    → IsFinal final
    → feed csi (params ++ (final ∷ [])) ≡ ([], text)
unfolding feed
feed-parameters [] final h f =
    let ends : next_state csi final ≡ text = csi-ends final f in rw ends refl
feed-parameters (p ∷ params) final h f =
    let stays : next_state csi p ≡ csi = csi-stays p h.0 in
    rw (stays, feed-parameters params final h.1 f) refl

osc-stays : (c : ℕ) → IsBody c → next_state osc c ≡ osc
unfolding next_state
osc-stays c h = rw (h.0, h.1) refl

feed-body :
    (body rest : List ℕ)
    → All IsBody body
    → feed osc rest ≡ ([], text)
    → feed osc (body ++ rest) ≡ ([], text)
unfolding feed
feed-body [] rest h ends = ends
feed-body (b ∷ body) rest h ends =
    let stays : next_state osc b ≡ osc = osc-stays b h.0 in
    rw (stays, feed-body body rest h.1 ends) refl

feed-sequence : (xs : List ℕ) → IsSequence xs → feed text xs ≡ ([], text)
unfolding feed next_state keeps
feed-sequence xs (control params final h f) = rw (feed-parameters params final h f) refl
feed-sequence xs (command_bell body h) = rw (feed-body body (7 ∷ []) h refl) refl
feed-sequence xs (command_string body h) = rw (feed-body body (0x1b ∷ 0x5c ∷ []) h refl) refl

-- A control sequence or an operating system command between two plain texts is taken out as a whole,
-- and the texts are kept as they are.
pub feed-removes :
    (before inside after : List ℕ)
    → All (λ c. is_plain c ≡ true) before
    → IsSequence inside
    → All (λ c. is_plain c ≡ true) after
    → feed text (before ++ (inside ++ after)) ≡ (before ++ after, text)
unfolding feed
feed-removes before inside after plain sequence plain' =
    feed-append text before (inside ++ after)
    ∙ rw
        (
          feed_plain before plain,
          feed-append text inside after,
          feed-sequence inside sequence,
          feed_plain after plain',
        )
        refl
