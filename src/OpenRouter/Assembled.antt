-- ===== src/OpenRouter/Assembled.antt =====
-- The turn of a streamed response, and what was streamed.
use mechagnome.Base.{
  ℕ, String, ◌≡◌, refl, sym, ap, ◌∙◌, ◌⊎◌, inl, inr, Bool, true, false, not, ◌&&◌, ◌||◌, Option,
  none, some, List, [], ◌∷◌, ◌++◌, arith, ◌==◌, nat_eq, string_eq, Bool-cases, Option-cases,
}
use mechagnome.Base.Rows.{is_some}
use mechagnome.Schema.Host.{Json, Fields}
use mechagnome.OpenRouter.Failures.{Failure, Outcome, answered, failed, ◌>>=◌}
use mechagnome.OpenRouter.Items.{
  Codec, or_fail, ensure, nonempty, bad_response, text_at, lookup, as_fields, is_present,
  stream_error, tool_calls,
}
use mechagnome.OpenRouter.Stream.{
  Assembly, fresh, Step, Read, after_step, on_text, on_reasoning, on_item, on_terminal, on_type,
  on_payload, on_line, on_lines, data_of, is_terminal_type, is_final_type, strip_returns, int_at,
  is_supported, same_status, optional_text,
}
use mechagnome.OpenRouter.Turn.{
  is_text, none_or_in, finish_failure, truncated, items_of, ModelTurn, finish, joined, final_parts,
}

-- The step that a successful chain took first.
pub then-answered :
    {A B : Type 0} (first : Outcome A) (rest : A → Outcome B) (end : B)
    → (first >>= rest) ≡ answered end
    → (a : A) × (first ≡ answered a) × (rest a ≡ answered end)
then-answered (failed e) rest end done = absurd (ground arith)
then-answered (answered a) rest end done = (a, refl, done)

-- The texts of a step.
abbrev yields : Option String → List String
yields none = []
yields (some t) = t ∷ []

module _ (c : Codec) where
  abbrev Adds : Assembly → Option String → Assembly → Type 0
  Adds s o s' = s'.text_parts ≡ s.text_parts ++ yields o

  append_nil : (ts : List String) → ts ≡ ts ++ []
  append_nil [] = refl
  append_nil (t ∷ ts) = ap (λ l. t ∷ l) (append_nil ts)

  settled :
      (s s₁ : Assembly) (p o : Option String) (s' : Assembly)
      → Adds s p s₁
      → ◌≡◌ {A = Step} (answered (p, s₁)) (answered (o, s'))
      → Adds s o s'
  settled s s₁ p o s' adds done =
      let same : ◌≡◌ {A = Option String × Assembly} (p, s₁) (o, s') = ground arith in
      ap (λ (x : Option String × Assembly). x.1.text_parts) (sym same)
      ∙ adds
      ∙ ap (λ (x : Option String × Assembly). s.text_parts ++ yields x.0) same

  -- A step that adds no text.
  quiet :
      (s s₁ : Assembly) (o : Option String) (s' : Assembly)
      → s₁.text_parts ≡ s.text_parts
      → ◌≡◌ {A = Step} (answered (none, s₁)) (answered (o, s'))
      → Adds s o s'
  quiet s s₁ o s' same done = settled s s₁ none o s' (same ∙ append_nil s.text_parts) done

  on_text-Adds :
      (payload : Fields) (s : Assembly) (o : Option String) (s' : Assembly)
      → on_text c payload s ≡ answered (o, s')
      → Adds s o s'
  unfolding on_text
  on_text-Adds payload s o s' done =
      let (delta, _, rest) =
        then-answered (or_fail bad_response (text_at payload "delta")) _ _ done in
      elim (Bool-cases (delta == "")) [
        | inl empty ↦ quiet s s o s' refl (rw empty at rest)
        | inr more ↦
            settled s (record s { text_parts = s.text_parts ++ (delta ∷ []) }) (some delta) o s'
              refl (rw more at rest)
      ]

  on_reasoning-Adds :
      (payload : Fields) (s : Assembly) (o : Option String) (s' : Assembly)
      → on_reasoning c payload s ≡ answered (o, s')
      → Adds s o s'
  unfolding on_reasoning
  on_reasoning-Adds payload s o s' done =
      let (delta, _, rest) =
        then-answered (or_fail bad_response (text_at payload "delta")) _ _ done in
      quiet s _ o s' refl rest

  on_item-Adds :
      (payload : Fields) (s : Assembly) (o : Option String) (s' : Assembly)
      → on_item c payload s ≡ answered (o, s')
      → Adds s o s'
  unfolding on_item
  on_item-Adds payload s o s' done =
      let (index, _, h₁) =
        then-answered (or_fail bad_response (int_at c payload "output_index")) _ _ done in
      let (item, _, h₂) =
        then-answered (or_fail bad_response (as_fields (lookup payload "item"))) _ _ h₁ in
      let (_, _, h₃) = then-answered (ensure (is_supported c item) bad_response) _ _ h₂ in
      quiet s _ o s' refl h₃

  on_terminal-Adds :
      (payload : Fields) (s : Assembly) (o : Option String) (s' : Assembly)
      → on_terminal c payload s ≡ answered (o, s')
      → Adds s o s'
  unfolding on_terminal
  on_terminal-Adds payload s o s' done =
      let (r, _, h₁) =
        then-answered (or_fail bad_response (as_fields (lookup payload "response"))) _ _ done in
      let (status, _, h₂) = then-answered (or_fail bad_response (text_at r "status")) _ _ h₁ in
      let (_, _, h₃) =
        then-answered (ensure (same_status s.terminal_status status) bad_response) _ _ h₂ in
      let (_, _, h₄) =
        then-answered
          (ensure (not (is_present (lookup r "error")))
            (stream_error c (lookup r "error") (lookup r "error_type")))
          _ _ h₃ in
      let (finish_reason, _, h₅) =
        then-answered (optional_text (lookup r "finish_reason")) _ _ h₄ in
      quiet s _ o s' refl h₅

  on_type-Adds :
      (kind : String) (payload : Fields) (s : Assembly) (o : Option String) (s' : Assembly)
      → on_type c kind payload s ≡ answered (o, s')
      → Adds s o s'
  unfolding on_type
  on_type-Adds kind payload s o s' done =
      elim (Bool-cases
        (kind == "response.content_part.delta" || kind == "response.output_text.delta")) [
          | inl text ↦ on_text-Adds payload s o s' (rw (on_type, text) at done)
          | inr a ↦ elim (Bool-cases (kind == "response.reasoning.delta")) [
            | inl reasoning ↦ on_reasoning-Adds payload s o s' (rw (on_type, a, reasoning) at done)
            | inr b ↦ elim (Bool-cases (kind == "response.output_item.done")) [
              | inl item ↦ on_item-Adds payload s o s' (rw (on_type, a, b, item) at done)
              | inr d ↦ elim (Bool-cases (is_terminal_type kind)) [
                | inl terminal ↦
                    on_terminal-Adds payload s o s' (rw (on_type, a, b, d, terminal) at done)
                | inr other ↦ quiet s s o s' refl (rw (on_type, a, b, d, other) at done)
              ]
            ]
          ]
        ]

  on_payload-Adds :
      (value : Json) (s : Assembly) (o : Option String) (s' : Assembly)
      → on_payload c value s ≡ answered (o, s')
      → Adds s o s'
  unfolding on_payload
  on_payload-Adds value s o s' done =
      let (payload, _, h₁) =
        then-answered (or_fail bad_response (as_fields (some value))) _ _ done in
      let (_, _, h₂) =
        then-answered
          (ensure (not (is_present (lookup payload "error")))
            (stream_error c (lookup payload "error") (lookup payload "error_type")))
          _ _ h₁ in
      let (kind, _, h₃) = then-answered (or_fail bad_response (text_at payload "type")) _ _ h₂ in
      let (_, _, h₄) =
        then-answered (ensure (not (is_some s.terminal_status) || is_final_type kind) bad_response)
          _ _ h₃ in
      on_type-Adds kind payload s o s' h₄

  on_line-Adds :
      (line : List ℕ) (s : Assembly) (o : Option String) (s' : Assembly)
      → on_line c line s ≡ answered (o, s')
      → Adds s o s'
  unfolding on_line
  on_line-Adds raw s o s' done =
      let (line, _, h₁) =
        then-answered (or_fail bad_response (c.decode (strip_returns raw))) _ _ done in
      elim (Option-cases (data_of c line)) [
        | inl nothing ↦ quiet s s o s' refl (rw nothing at h₁)
        | inr (text, found) ↦ elim (Bool-cases (text == "[DONE]")) [
          | inl end ↦ quiet s (record s { saw_done = true }) o s' refl (rw (found, end) at h₁)
          | inr more ↦
              let (value, _, h₂) =
                then-answered (or_fail bad_response (c.loads text)) _ _ (rw (found, more) at h₁) in
              on_payload-Adds value s o s' h₂
        ]
      ]

  pub Step-cases :
      (x : Step)
      → ((e : Failure) × (x ≡ failed e))
        ⊎ ((s' : Assembly) × (x ≡ answered (none, s')))
        ⊎ ((t : String) × (s' : Assembly) × (x ≡ answered (some t, s')))
  Step-cases (failed e) = inl (e, refl)
  Step-cases (answered (none, s')) = inr (inl (s', refl))
  Step-cases (answered (some t, s')) = inr (inr (t, s', refl))

  append_assoc : (xs ys zs : List String) → (xs ++ ys) ++ zs ≡ xs ++ (ys ++ zs)
  append_assoc [] ys zs = refl
  append_assoc (x ∷ xs) ys zs = ap (λ l. x ∷ l) (append_assoc xs ys zs)

  ended_here :
      (s : Assembly) (texts : List String) (s' : Assembly)
      → ◌≡◌ {A = Read} ([], answered s) (texts, answered s')
      → s'.text_parts ≡ s.text_parts ++ texts
  ended_here s texts s' done =
      let same : ◌≡◌ {A = List String} [] texts = ap (λ (r : Read). r.0) done in
      let end : ◌≡◌ {A = Outcome Assembly} (answered s) (answered s') =
        ap (λ (r : Read). r.1) done in
      let same' : s ≡ s' = ground arith in
      ap (λ (x : Assembly). x.text_parts) (sym same')
      ∙ append_nil s.text_parts
      ∙ ap (λ l. s.text_parts ++ l) same

  -- One line of the loop, before the end marker.
  pub on_lines-open :
      (line : List ℕ) (lines : List (List ℕ)) (s : Assembly)
      → s.saw_done ≡ false
      → on_lines c (line ∷ lines) s ≡ after_step (on_line c line s) (on_lines c lines)
  unfolding on_lines
  on_lines-open line lines s open_ =
      ap
        (λ b. elim b as (λ x. Read) [
          | true ↦ ([], answered s)
          | false ↦ after_step (on_line c line s) (on_lines c lines)
        ])
        open_

  -- The text parts are what was yielded.
  on_lines-text_parts :
      (lines : List (List ℕ)) (s : Assembly) (texts : List String) (s' : Assembly)
      → on_lines c lines s ≡ (texts, answered s')
      → s'.text_parts ≡ s.text_parts ++ texts
  unfolding on_lines
  on_lines-text_parts [] s texts s' done = ended_here s texts s' done
  on_lines-text_parts (line ∷ lines) s texts s' done = elim (Bool-cases s.saw_done) [
    | inl over ↦ ended_here s texts s' (rw (on_lines, over) at done)
    | inr open_ ↦
        let reads = sym (on_lines-open line lines s open_) ∙ done in
        elim (Step-cases (on_line c line s)) [
          | inl (e, failing) ↦ absurd (ground (arith, rw failing at reads))
          | inr (inl (s₁, went)) ↦
              on_lines-text_parts lines s₁ texts s' (rw went at reads)
              ∙ ap (λ l. l ++ texts)
                  (on_line-Adds line s none s₁ went ∙ sym (append_nil s.text_parts))
          | inr (inr (t, s₁, went)) ↦
              let read = on_lines c lines s₁ in
              let done' : ◌≡◌ {A = Read} (t ∷ read.0, read.1) (texts, answered s') =
                rw went at reads in
              let first : ◌≡◌ {A = List String} (t ∷ read.0) texts = ap (λ (r : Read). r.0) done' in
              let end : ◌≡◌ {A = Outcome Assembly} read.1 (answered s') =
                ap (λ (r : Read). r.1) done' in
              on_lines-text_parts lines s₁ read.0 s' (λ i. (read.0, end i))
              ∙ ap (λ l. l ++ read.0) (on_line-Adds line s (some t) s₁ went)
              ∙ append_assoc s.text_parts (t ∷ []) read.0
              ∙ ap (λ l. s.text_parts ++ l) first
        ]
  ]

  ensured : (b : Bool) (e : Failure) → ensure b e ≡ answered tt → b ≡ true
  ensured true e done = refl
  ensured false e done = absurd (ground arith)

  List-cases : (xs : List String) → (xs ≡ []) ⊎ ((t : String) × (ts : List String) × (xs ≡ t ∷ ts))
  List-cases [] = inl refl
  List-cases (t ∷ ts) = inr (t, ts, refl)

  abbrev text_of : Outcome ModelTurn → Option String
  text_of (failed e) = none
  text_of (answered turn) = turn.text

  nonempty_parts :
      (s : Assembly) (parts : List String)
      → final_parts c s ≡ answered parts
      → (s.text_parts ≡ []) ⊎ (parts ≡ s.text_parts)
  unfolding final_parts
  nonempty_parts s parts done = elim (List-cases s.text_parts) [
    | inl empty ↦ inl empty
    | inr (t, ts, full) ↦
        let same : ◌≡◌ {A = Outcome (List String)} (answered (t ∷ ts)) (answered parts) =
          rw (final_parts, full) at done in
        let same' : t ∷ ts ≡ parts = ground arith in inr (sym same' ∙ sym full)
  ]

  -- The checks that a turn has passed, and its text.
  pub finish_inv :
      (lines : List (List ℕ)) (texts : List String) (s : Assembly) (turn : ModelTurn)
      → on_lines c lines fresh ≡ (texts, answered s)
      → finish c s ≡ answered turn
      → (s.saw_done ≡ true)
        × ((is_text s.terminal_status "completed"
              && none_or_in ("stop" ∷ "tool_calls" ∷ []) s.terminal_finish_reason)
            ≡ true)
        × ((texts ≡ []) ⊎ (turn.text ≡ nonempty c (some (joined texts))))
  unfolding finish
  finish_inv lines texts s turn read done =
      let complete =
        is_text s.terminal_status "completed"
        && none_or_in ("stop" ∷ "tool_calls" ∷ []) s.terminal_finish_reason in
      let failure =
        finish_failure s.incomplete_reason s.terminal_finish_reason s.terminal_status
          s.terminal_error_type in
      let (_, over, h₁) = then-answered (ensure s.saw_done truncated) _ _ done in
      let (_, completed, h₂) = then-answered (ensure complete failure) _ _ h₁ in
      let (calls, _, h₃) = then-answered (tool_calls c (items_of s.output_items)) _ _ h₂ in
      let (parts, found, h₄) = then-answered (final_parts c s) _ _ h₃ in
      let same : s.text_parts ≡ texts = on_lines-text_parts lines fresh texts s read in
      (
        ensured s.saw_done truncated over,
        ensured complete failure completed,
        elim (nonempty_parts s parts found) [
          | inl empty ↦ inl (sym same ∙ empty)
          | inr all ↦
              inr (sym (ap text_of h₄) ∙ ap (λ l. nonempty c (some (joined l))) (all ∙ same))
        ],
      )
