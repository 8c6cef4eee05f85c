-- ===== src/OpenRouter/Ended.antt =====
-- What the lines of a streamed response that makes a turn have carried.
use mechagnome.Base.{
  ℕ, String, ◌≡◌, refl, sym, ap, ◌∙◌, ◌⊎◌, inl, inr, true, not, ◌||◌, Option, none, some, List, [],
  ◌∷◌, arith, ◌==◌, nat_eq, string_eq, Bool-cases, Option-cases, eq_of_beq,
}
use mechagnome.Base.Rows.{is_some}
use mechagnome.Schema.Host.{Json, Fields}
use mechagnome.OpenRouter.Failures.{Failure, Outcome, answered, failed}
use mechagnome.OpenRouter.Items.{
  Codec, or_fail, ensure, nonempty, bad_response, text_at, lookup, as_fields, is_present,
  stream_error,
}
use mechagnome.OpenRouter.Stream.{
  Assembly, fresh, Step, Read, on_text, on_reasoning, on_item, on_terminal, on_type, on_payload,
  on_line, on_lines, data_of, is_terminal_type, is_final_type, strip_returns, int_at, is_supported,
  same_status, optional_text,
}
use mechagnome.OpenRouter.Turn.{is_text, none_or_in, ModelTurn, finish, joined}
use mechagnome.OpenRouter.Assembled.{then-answered, Step-cases, on_lines-open, finish_inv}

-- Some member of a list has a property.
abbrev pub Some : {A : Type 0} → (A → Type 0) → List A → Type 0
Some P [] = ⊥
Some P (x ∷ xs) = P x ⊎ Some P xs

Some-map :
    {A : Type 0} (P Q : A → Type 0) (xs : List A) → ((x : A) → P x → Q x) → Some P xs → Some Q xs
Some-map P Q [] f h = absurd h
Some-map P Q (x ∷ xs) f (inl h) = inl (f x h)
Some-map P Q (x ∷ xs) f (inr h) = inr (Some-map P Q xs f h)

given : {A : Type 0} (e : Failure) (o : Option A) (a : A) → or_fail e o ≡ answered a → o ≡ some a
given e none a done = absurd (ground arith)
given e (some b) a done = ground arith

-- A terminal event with a status and a finish reason.
abbrev pub IsTerminal : Fields → Option String → Option String → Type 0
IsTerminal payload status finish_reason =
    (kind : String) × (text_at payload "type" ≡ some kind)
    × (is_terminal_type kind ≡ true)
    × ((r : Fields) × (as_fields (lookup payload "response") ≡ some r)
        × (text_at r "status" ≡ status)
        × (optional_text (lookup r "finish_reason") ≡ answered finish_reason))

abbrev Keeps : Assembly → Assembly → Type 0
Keeps s s' =
    (s'.terminal_status ≡ s.terminal_status)
    × (s'.terminal_finish_reason ≡ s.terminal_finish_reason)

module _ (c : Codec) where
  -- A line whose data is a text.
  abbrev pub HasData : List ℕ → String → Type 0
  HasData raw text =
      (line : String) × (c.decode (strip_returns raw) ≡ some line) × (data_of c line ≡ some text)

  -- A line whose data is a terminal event with a status and a finish reason.
  abbrev pub Reports : Option String → Option String → List ℕ → Type 0
  Reports status finish_reason raw =
      (text : String) × HasData raw text
      × ((payload : Fields) × (as_fields (c.loads text) ≡ some payload)
          × IsTerminal payload status finish_reason)

  abbrev StepOf : Assembly → Assembly → Type 0 → Type 0
  StepOf s s' P = (s'.saw_done ≡ s.saw_done) × (Keeps s s' ⊎ P)

  same_state :
      (s s₁ : Assembly) (p o : Option String) (s' : Assembly) (P : Type 0)
      → s₁.saw_done ≡ s.saw_done
      → Keeps s s₁
      → ◌≡◌ {A = Step} (answered (p, s₁)) (answered (o, s'))
      → StepOf s s' P
  same_state s s₁ p o s' P mark keeps done =
      let same : s₁ ≡ s' = ground arith in
      (
        ap (λ (x : Assembly). x.saw_done) (sym same) ∙ mark,
        inl (
          ap (λ (x : Assembly). x.terminal_status) (sym same) ∙ keeps.0,
          ap (λ (x : Assembly). x.terminal_finish_reason) (sym same) ∙ keeps.1,
        ),
      )

  on_text-StepOf :
      (payload : Fields) (s : Assembly) (o : Option String) (s' : Assembly) (P : Type 0)
      → on_text c payload s ≡ answered (o, s')
      → StepOf s s' P
  unfolding on_text
  on_text-StepOf payload s o s' P done =
      let (delta, _, rest) =
        then-answered (or_fail bad_response (text_at payload "delta")) _ _ done in
      elim (Bool-cases (delta == "")) [
        | inl empty ↦ same_state s s none o s' P refl (refl, refl) (rw empty at rest)
        | inr more ↦ same_state s _ (some delta) o s' P refl (refl, refl) (rw more at rest)
      ]

  on_item-StepOf :
      (payload : Fields) (s : Assembly) (o : Option String) (s' : Assembly) (P : Type 0)
      → on_item c payload s ≡ answered (o, s')
      → StepOf s s' P
  unfolding on_item
  on_item-StepOf payload s o s' P done =
      let (index, _, h₁) =
        then-answered (or_fail bad_response (int_at c payload "output_index")) _ _ done in
      let (item, _, h₂) =
        then-answered (or_fail bad_response (as_fields (lookup payload "item"))) _ _ h₁ in
      let (_, _, h₃) = then-answered (ensure (is_supported c item) bad_response) _ _ h₂ in
      same_state s _ none o s' P refl (refl, refl) h₃

  on_reasoning-StepOf :
      (payload : Fields) (s : Assembly) (o : Option String) (s' : Assembly) (P : Type 0)
      → on_reasoning c payload s ≡ answered (o, s')
      → StepOf s s' P
  unfolding on_reasoning
  on_reasoning-StepOf payload s o s' P done =
      let (delta, _, rest) =
        then-answered (or_fail bad_response (text_at payload "delta")) _ _ done in
      same_state s _ none o s' P refl (refl, refl) rest

  on_terminal-StepOf :
      (kind : String) (payload : Fields) (s : Assembly) (o : Option String) (s' : Assembly)
      → text_at payload "type" ≡ some kind
      → is_terminal_type kind ≡ true
      → on_terminal c payload s ≡ answered (o, s')
      → StepOf s s' (IsTerminal payload s'.terminal_status s'.terminal_finish_reason)
  unfolding on_terminal
  on_terminal-StepOf kind payload s o s' typed terminal done =
      let (r, response, h₁) =
        then-answered (or_fail bad_response (as_fields (lookup payload "response"))) _ _ done in
      let (status, status_is, h₂) =
        then-answered (or_fail bad_response (text_at r "status")) _ _ h₁ in
      let (_, _, h₃) =
        then-answered (ensure (same_status s.terminal_status status) bad_response) _ _ h₂ in
      let (_, _, h₄) =
        then-answered
          (ensure (not (is_present (lookup r "error")))
            (stream_error c (lookup r "error") (lookup r "error_type")))
          _ _ h₃ in
      let (finish_reason, reason_is, h₅) =
        then-answered (optional_text (lookup r "finish_reason")) _ _ h₄ in
      let state = λ (x : Step). elim x as (λ y. Assembly) [ failed e ↦ s | answered p ↦ p.1 ] in
      let same = ap state h₅ in
      (
        ap (λ (x : Assembly). x.saw_done) (sym same),
        inr (
          kind,
          typed,
          terminal,
          (
            r,
            given bad_response _ r response,
            given bad_response _ status status_is ∙ ap (λ (x : Assembly). x.terminal_status) same,
            reason_is ∙ ap (λ (x : Assembly). answered x.terminal_finish_reason) same,
          ),
        ),
      )

  on_type-StepOf :
      (kind : String) (payload : Fields) (s : Assembly) (o : Option String) (s' : Assembly)
      → text_at payload "type" ≡ some kind
      → on_type c kind payload s ≡ answered (o, s')
      → StepOf s s' (IsTerminal payload s'.terminal_status s'.terminal_finish_reason)
  unfolding on_type
  on_type-StepOf kind payload s o s' typed done =
      elim (Bool-cases
        (kind == "response.content_part.delta" || kind == "response.output_text.delta")) [
          | inl text ↦ on_text-StepOf payload s o s' _ (rw (on_type, text) at done)
          | inr a ↦ elim (Bool-cases (kind == "response.reasoning.delta")) [
            | inl reasoning ↦
                on_reasoning-StepOf payload s o s' _ (rw (on_type, a, reasoning) at done)
            | inr b ↦ elim (Bool-cases (kind == "response.output_item.done")) [
              | inl item ↦ on_item-StepOf payload s o s' _ (rw (on_type, a, b, item) at done)
              | inr d ↦ elim (Bool-cases (is_terminal_type kind)) [
                | inl terminal ↦
                    on_terminal-StepOf kind payload s o s' typed terminal
                      (rw (on_type, a, b, d, terminal) at done)
                | inr other ↦
                    same_state s s none o s' _ refl (refl, refl)
                      (rw (on_type, a, b, d, other) at done)
              ]
            ]
          ]
        ]

  on_payload-StepOf :
      (value : Json) (s : Assembly) (o : Option String) (s' : Assembly)
      → on_payload c value s ≡ answered (o, s')
      → StepOf s s' (
          (payload : Fields) × (as_fields (some value) ≡ some payload)
          × IsTerminal payload s'.terminal_status s'.terminal_finish_reason)
  unfolding on_payload
  on_payload-StepOf value s o s' done =
      let (payload, fields, h₁) =
        then-answered (or_fail bad_response (as_fields (some value))) _ _ done in
      let (_, _, h₂) =
        then-answered
          (ensure (not (is_present (lookup payload "error")))
            (stream_error c (lookup payload "error") (lookup payload "error_type")))
          _ _ h₁ in
      let (kind, typed, h₃) =
        then-answered (or_fail bad_response (text_at payload "type")) _ _ h₂ in
      let (_, _, h₄) =
        then-answered (ensure (not (is_some s.terminal_status) || is_final_type kind) bad_response)
          _ _ h₃ in
      let (mark, rest) = on_type-StepOf kind payload s o s' (given bad_response _ kind typed) h₄ in
      (
        mark,
        elim rest [
          | inl keeps ↦ inl keeps
          | inr terminal ↦ inr (payload, given bad_response _ payload fields, terminal)
        ],
      )

  -- What a line may change of the marks.
  abbrev LineOf : List ℕ → Assembly → Assembly → Type 0
  LineOf raw s s' =
      (s'.saw_done ≡ true → (s.saw_done ≡ true) ⊎ HasData raw "[DONE]")
      × (Keeps s s' ⊎ Reports s'.terminal_status s'.terminal_finish_reason raw)

  quiet_line : (raw : List ℕ) (s s' : Assembly) → StepOf s s' ⊥ → LineOf raw s s'
  quiet_line raw s s' (mark, inl keeps) = (λ over. inl (sym mark ∙ over), inl keeps)
  quiet_line raw s s' (mark, inr bad) = absurd bad

  on_line-LineOf :
      (raw : List ℕ) (s : Assembly) (o : Option String) (s' : Assembly)
      → on_line c raw s ≡ answered (o, s')
      → LineOf raw s s'
  unfolding on_line
  on_line-LineOf raw s o s' done =
      let (line, decoded, h₁) =
        then-answered (or_fail bad_response (c.decode (strip_returns raw))) _ _ done in
      elim (Option-cases (data_of c line)) [
        | inl nothing ↦
            quiet_line raw s s' (same_state s s none o s' ⊥ refl (refl, refl) (rw nothing at h₁))
        | inr (text, found) ↦ elim (Bool-cases (text == "[DONE]")) [
          | inl end ↦
              let (_, rest) =
                same_state (record s { saw_done = true }) (record s { saw_done = true }) none o s' ⊥
                  refl (refl, refl) (rw (found, end) at h₁) in
              (
                λ over. inr (
                  line,
                  given bad_response _ line decoded,
                  found ∙ ap some (eq_of_beq text "[DONE]" end),
                ),
                elim rest [ inl keeps ↦ inl keeps | inr bad ↦ absurd bad ],
              )
          | inr more ↦
              let (value, loaded, h₂) =
                then-answered (or_fail bad_response (c.loads text)) _ _ (rw (found, more) at h₁) in
              let (mark, rest) = on_payload-StepOf value s o s' h₂ in
              (
                λ over. inl (sym mark ∙ over),
                elim rest [
                  | inl keeps ↦ inl keeps
                  | inr (payload, fields, terminal) ↦ inr (
                    text,
                    (line, given bad_response _ line decoded, found),
                    (payload, ap as_fields (given bad_response _ value loaded) ∙ fields, terminal),
                  )
                ],
              )
        ]
      ]

  abbrev LinesOf : List (List ℕ) → Assembly → Assembly → Type 0
  LinesOf lines s s' =
      (s'.saw_done ≡ true → (s.saw_done ≡ true) ⊎ Some (λ raw. HasData raw "[DONE]") lines)
      × (Keeps s s' ⊎ Some (Reports s'.terminal_status s'.terminal_finish_reason) lines)

  no_lines :
      (lines : List (List ℕ)) (s : Assembly) (texts : List String) (s' : Assembly)
      → ◌≡◌ {A = Read} ([], answered s) (texts, answered s')
      → LinesOf lines s s'
  no_lines lines s texts s' done =
      let state = λ (x : Read). elim x.1 as (λ y. Assembly) [ failed e ↦ s | answered t ↦ t ] in
      let same : s ≡ s' = ap state done in
      (
        λ over. inl (ap (λ (x : Assembly). x.saw_done) same ∙ over),
        inl (
          ap (λ (x : Assembly). x.terminal_status) (sym same),
          ap (λ (x : Assembly). x.terminal_finish_reason) (sym same),
        ),
      )

  more_lines :
      (raw : List ℕ) (lines : List (List ℕ)) (s s₁ s' : Assembly)
      → LineOf raw s s₁
      → LinesOf lines s₁ s'
      → LinesOf (raw ∷ lines) s s'
  more_lines raw lines s s₁ s' (mark, first) (mark', rest) = (
    λ over. elim (mark' over) [
      | inr later ↦ inr (inr later)
      | inl then_ ↦ elim (mark then_) [ inl before ↦ inl before | inr here ↦ inr (inl here) ]
    ],
    elim rest [
      | inr later ↦ inr (inr later)
      | inl (status, reason) ↦ elim first [
        | inl (status₁, reason₁) ↦ inl (status ∙ status₁, reason ∙ reason₁)
        | inr here ↦ inr (inl (rw (status, reason) here))
      ]
    ],
  )

  on_lines-LinesOf :
      (lines : List (List ℕ)) (s : Assembly) (texts : List String) (s' : Assembly)
      → on_lines c lines s ≡ (texts, answered s')
      → LinesOf lines s s'
  unfolding on_lines
  on_lines-LinesOf [] s texts s' done = no_lines [] s texts s' done
  on_lines-LinesOf (line ∷ lines) s texts s' done = elim (Bool-cases s.saw_done) [
    | inl over ↦ no_lines (line ∷ lines) s texts s' (rw (on_lines, over) at done)
    | inr open_ ↦
        let reads = sym (on_lines-open c line lines s open_) ∙ done in
        elim (Step-cases c (on_line c line s)) [
          | inl (e, failing) ↦ absurd (ground (arith, rw failing at reads))
          | inr (inl (s₁, went)) ↦
              more_lines line lines s s₁ s' (on_line-LineOf line s none s₁ went)
                (on_lines-LinesOf lines s₁ texts s' (rw went at reads))
          | inr (inr (t, s₁, went)) ↦
              let read = on_lines c lines s₁ in
              let done' : ◌≡◌ {A = Read} (t ∷ read.0, read.1) (texts, answered s') =
                rw went at reads in
              let end : ◌≡◌ {A = Outcome Assembly} read.1 (answered s') =
                ap (λ (r : Read). r.1) done' in
              more_lines line lines s s₁ s' (on_line-LineOf line s (some t) s₁ went)
                (on_lines-LinesOf lines s₁ read.0 s' (λ i. (read.0, end i)))
        ]
  ]

  completed_status : (o : Option String) → is_text o "completed" ≡ true → o ≡ some "completed"
  completed_status none h = absurd (ground arith)
  completed_status (some t) h = ap some (eq_of_beq t "completed" h)

  -- A streamed response makes a turn only if one of its lines was the end marker, and one carried a
  -- terminal event whose status was `completed` and whose finish reason, if any, was `stop` or
  -- `tool_calls`; and unless no text was streamed, the turn's text is all the text that was streamed.
  pub finish-on_lines :
      (lines : List (List ℕ)) (texts : List String) (s : Assembly) (turn : ModelTurn)
      → on_lines c lines fresh ≡ (texts, answered s)
      → finish c s ≡ answered turn
      → Some (λ raw. HasData raw "[DONE]") lines
        × ((reason : Option String) × (none_or_in ("stop" ∷ "tool_calls" ∷ []) reason ≡ true)
            × Some (Reports (some "completed") reason) lines)
        × ((texts ≡ []) ⊎ (turn.text ≡ nonempty c (some (joined texts))))
  finish-on_lines lines texts s turn read done =
      let (over, complete, text) = finish_inv c lines texts s turn read done in
      let (marks, reports) = on_lines-LinesOf lines fresh texts s read in
      let status : s.terminal_status ≡ some "completed" =
        completed_status s.terminal_status (ground (arith, complete)) in
      (
        elim (marks over) [ inl before ↦ absurd (ground (arith, before)) | inr end ↦ end ],
        (
          s.terminal_finish_reason,
          ground (arith, complete),
          elim reports [
            | inl (unset, _) ↦ absurd (ground (arith, unset, status))
            | inr found ↦
                Some-map (Reports s.terminal_status s.terminal_finish_reason)
                  (Reports (some "completed") s.terminal_finish_reason) lines
                  (λ raw h. rw (sym status) h) found
          ],
        ),
        text,
      )
