-- ===== src/OpenRouter/Stream.antt =====
-- src/mechagnome/openrouter.py, `_stream_response` and `_completion_response`: the lines of a streamed
-- response, the events in them, and the turn that they make up. A response's HTTP error is
-- `http_error`.
use mechagnome.Base.{
  ◌+◌, ℕ, zero, suc, String, Bool, true, false, not, ◌||◌, Option, none, some, List, [], ◌∷◌, ◌++◌,
  ltb, ◌==◌, nat_eq, string_eq, if◌then◌else◌,
}
use mechagnome.Base.Rows.{or_else, is_some, length}
use mechagnome.Schema.Host.{Json, Fields}
use mechagnome.Tools.Catalog.{starts_with}
use mechagnome.OpenRouter.Failures.{Failure, no_details, Outcome, answered, failed, ◌>>=◌, ◌>>◌}
use mechagnome.OpenRouter.Items.{
  ℤ, pos, negsuc, Codec, lookup, as_fields, is_present, text_at, bad_response, or_fail, ensure,
  has_text, stream_error, nonempty,
}

-- `line_buffer`: the bytes up to the first newline without it, and the ones after it.
unfoldable pub cut_line : (before : List ℕ) → List ℕ → Option (List ℕ × List ℕ)
cut_line before [] = none
cut_line before (b ∷ bs) = if b == 10 then some (before, bs) else cut_line (before ++ (b ∷ [])) bs

-- `rstrip(b"\r")`
unfoldable pub strip_returns : List ℕ → List ℕ
strip_returns [] = []
strip_returns (b ∷ bs) =
    let rest = strip_returns bs in
    elim rest [ [] ↦ if b == 13 then [] else b ∷ [] | r ∷ rs ↦ b ∷ r ∷ rs ]

-- The `while` loop over the newlines of the buffer: its lines, and what is left. One unit of fuel for
-- each byte is enough.
unfoldable pub split_lines : (fuel : ℕ) → List ℕ → List (List ℕ) × List ℕ
unfolding cut_line
split_lines zero bytes = ([], bytes)
split_lines (suc fuel) bytes = elim (cut_line [] bytes) [
  | none ↦ ([], bytes)
  | some (line, rest) ↦ let (lines, left) = split_lines fuel rest in (line ∷ lines, left)
]

-- `line_buffer.extend(chunk)` and the loop.
unfoldable pub read_chunk : List ℕ → (chunk : List ℕ) → List (List ℕ) × List ℕ
unfolding split_lines
read_chunk buffer chunk = split_lines (suc (length (buffer ++ chunk))) (buffer ++ chunk)

-- A chunk, and whether the deadline had passed when it came.
pub record Chunk : Type 0 where
  pub late : Bool
  pub bytes : List ℕ

-- `MAX_STREAM_BYTES`
abbrev pub max_stream_bytes : ℕ
max_stream_bytes = 4000000

abbrev pub stream_timeout : Failure
stream_timeout = record { code = "openrouter_timeout"; details = no_details }

abbrev pub stream_too_large : Failure
stream_too_large = record { code = "openrouter_response_too_large"; details = no_details }

-- The variables of `_stream_response`.
pub record Assembly : Type 0 where
  pub text_parts : List String
  pub reasoning_parts : List String
  pub output_items : List (ℤ × Fields)
  pub total_tokens : Option ℕ
  pub terminal_status : Option String
  pub terminal_finish_reason : Option String
  pub terminal_error_type : Option String
  pub incomplete_reason : Option String
  pub saw_done : Bool

abbrev pub fresh : Assembly
fresh = record {
  text_parts = [];
  reasoning_parts = [];
  output_items = [];
  total_tokens = none;
  terminal_status = none;
  terminal_finish_reason = none;
  terminal_error_type = none;
  incomplete_reason = none;
  saw_done = false;
}

abbrev pub same_int : ℤ → ℤ → Bool
same_int (pos a) (pos b) = a == b
same_int (pos a) (negsuc b) = false
same_int (negsuc a) (pos b) = false
same_int (negsuc a) (negsuc b) = a == b

abbrev pub less_int : ℤ → ℤ → Bool
less_int (pos a) (pos b) = ltb a b
less_int (pos a) (negsuc b) = false
less_int (negsuc a) (pos b) = true
less_int (negsuc a) (negsuc b) = ltb b a

-- `output_items[output_index] = item`, with the items kept in the order of their index
unfoldable pub put_item : ℤ → Fields → List (ℤ × Fields) → List (ℤ × Fields)
put_item i item [] = (i, item) ∷ []
put_item i item ((j, old) ∷ rest) =
    let later = put_item i item rest in
    if same_int i j
    then (i, item) ∷ rest
    else if less_int i j
    then (i, item) ∷ (j, old) ∷ rest
    else (j, old) ∷ later

abbrev pub is_one_of : String → List String → Bool
is_one_of t [] = false
is_one_of t (x ∷ xs) = t == x || is_one_of t xs

abbrev pub is_final_type : String → Bool
is_final_type kind = kind == "response.completed" || kind == "response.done"

abbrev pub is_terminal_type : String → Bool
is_terminal_type kind =
    is_one_of kind
      ("response.completed" ∷ "response.done" ∷ "response.failed" ∷ "response.incomplete" ∷ [])

abbrev pub same_status : Option String → String → Bool
same_status none status = true
same_status (some s) status = status == s

-- `value is not None and not isinstance(value, str)` raises
abbrev pub optional_text : Option Json → Outcome (Option String)
optional_text none = answered none
optional_text (some Json.null) = answered none
optional_text (some (Json.text t)) = answered (some t)
optional_text (some _) = failed bad_response

-- A text to yield, if there is one, and the variables afterwards.
abbrev pub Step : Type 0
Step = Outcome (Option String × Assembly)

abbrev pub Read : Type 0
Read = List String × Outcome Assembly

-- What the loop does after a line: it raises, or goes on.
abbrev pub after_step : Step → (Assembly → Read) → Read
after_step (failed e) rest = ([], failed e)
after_step (answered (none, s')) rest = rest s'
after_step (answered (some t, s')) rest = (t ∷ (rest s').0, (rest s').1)

module _ (c : Codec) where
  -- `isinstance(value, int)`: a Boolean is one too.
  abbrev pub int_at : Fields → String → Option ℤ
  int_at fields name = elim (lookup fields name) [
    | some (Json.number n) ↦ c.int_of n
    | some (Json.boolean b) ↦ some (pos (if b then 1 else 0))
    | _ ↦ none
  ]

  -- `_positive_int(usage.get("total_tokens"))`
  abbrev pub tokens_of : Option Json → Option ℕ
  tokens_of usage = elim (as_fields usage) [
    | none ↦ none
    | some fields ↦ elim (lookup fields "total_tokens") [
      | some (Json.number n) ↦ elim (c.int_of n) [
        | some (pos k) ↦ if ltb 0 k then some k else none
        | _ ↦ none
      ]
      | _ ↦ none
    ]
  ]

  unfoldable pub on_text : Fields → Assembly → Step
  on_text payload s = do
    delta ← or_fail bad_response (text_at payload "delta")
    answered (
        if delta == ""
        then (none, s)
        else (some delta, record s { text_parts = s.text_parts ++ (delta ∷ []) }))

  unfoldable pub on_reasoning : Fields → Assembly → Step
  on_reasoning payload s = do
    delta ← or_fail bad_response (text_at payload "delta")
    answered (none, record s { reasoning_parts = s.reasoning_parts ++ (delta ∷ []) })

  abbrev pub is_supported : Fields → Bool
  is_supported item =
      has_text c item "type" "function_call"
      || has_text c item "type" "reasoning"
      || has_text c item "type" "message"

  unfoldable pub on_item : Fields → Assembly → Step
  unfolding put_item
  on_item payload s = do
    index ← or_fail bad_response (int_at payload "output_index")
    item ← or_fail bad_response (as_fields (lookup payload "item"))
    ensure (is_supported item) bad_response
    answered (none, record s { output_items = put_item index item s.output_items })

  abbrev pub reason_of : Option Json → Option String
  reason_of details = elim (as_fields details) [
    | none ↦ none
    | some fields ↦ text_at fields "reason"
  ]

  unfoldable pub on_terminal : Fields → Assembly → Step
  on_terminal payload s = do
    r ← or_fail bad_response (as_fields (lookup payload "response"))
    status ← or_fail bad_response (text_at r "status")
    ensure (same_status s.terminal_status status) bad_response
    ensure (not (is_present (lookup r "error")))
        (stream_error c (lookup r "error") (lookup r "error_type"))
    finish_reason ← optional_text (lookup r "finish_reason")
    answered (
      none,
      record s {
        terminal_status = some status;
        terminal_finish_reason = finish_reason;
        terminal_error_type = or_else (text_at r "error_type") s.terminal_error_type;
        incomplete_reason = or_else (reason_of (lookup r "incomplete_details")) s.incomplete_reason;
        total_tokens = or_else (tokens_of (lookup r "usage")) s.total_tokens;
      },
    )

  -- The branches on `event_type`.
  unfoldable pub on_type : String → Fields → Assembly → Step
  unfolding on_text on_reasoning on_item on_terminal
  on_type kind payload s =
      if kind == "response.content_part.delta" || kind == "response.output_text.delta"
      then on_text payload s
      else if kind == "response.reasoning.delta"
      then on_reasoning payload s
      else if kind == "response.output_item.done"
      then on_item payload s
      else if is_terminal_type kind
      then on_terminal payload s
      else answered (none, s)

  -- The data of one line, after `json.loads`.
  unfoldable pub on_payload : Json → Assembly → Step
  unfolding on_type
  on_payload value s = do
    payload ← or_fail bad_response (as_fields (some value))
    ensure (not (is_present (lookup payload "error")))
        (stream_error c (lookup payload "error") (lookup payload "error_type"))
    kind ← or_fail bad_response (text_at payload "type")
    ensure (not (is_some s.terminal_status) || is_final_type kind) bad_response
    on_type kind payload s

  -- `line[5:]`
  abbrev pub after_prefix : ℕ → String → String
  after_prefix zero t = t
  after_prefix (suc n) String.[] = String.[]
  after_prefix (suc n) (String.◌∷◌ d t) = after_prefix n t

  -- The data of a line; `none` for a line without any.
  unfoldable pub data_of : String → Option String
  data_of line =
      if starts_with "data:" line then nonempty c (some (c.strip (after_prefix 5 line))) else none

  -- One line of the `while` loop.
  unfoldable pub on_line : List ℕ → Assembly → Step
  unfolding strip_returns data_of on_payload
  on_line raw s = do
    line ← or_fail bad_response (c.decode (strip_returns raw))
    elim (data_of line) [
      | none ↦ answered (none, s)
      | some text ↦
          if text == "[DONE]"
          then answered (none, record s { saw_done = true })
          else (do value ← or_fail bad_response (c.loads text); on_payload value s)
    ]

  -- The texts yielded, and the variables after the last line, or the error raised before it. No line
  -- after the end marker is read.
  unfoldable pub on_lines : List (List ℕ) → Assembly → Read
  unfolding on_line
  on_lines [] s = ([], answered s)
  on_lines (line ∷ lines) s = elim s.saw_done [
    | true ↦ ([], answered s)
    | false ↦ after_step (on_line line s) (on_lines lines)
  ]

  -- A reading that goes on, if it did not fail.
  abbrev pub then_read : Read → (Assembly → Read) → Read
  then_read (texts, failed e) rest = (texts, failed e)
  then_read (texts, answered s) rest = (texts ++ (rest s).0, (rest s).1)

  -- The loop over `response.iter_bytes()`: `size` is `stream_bytes`. No chunk after the end marker is
  -- read.
  unfoldable pub on_chunks : (size : ℕ) → (buffer : List ℕ) → List Chunk → Assembly → Read
  unfolding read_chunk on_lines
  on_chunks size buffer [] s = ([], answered s)
  on_chunks size buffer (chunk ∷ chunks) s =
      let size' = size + length chunk.bytes in
      let (lines, left) = read_chunk buffer chunk.bytes in
      if chunk.late
      then ([], failed stream_timeout)
      else if ltb max_stream_bytes size'
      then ([], failed stream_too_large)
      else then_read (on_lines lines s) λ s'. elim s'.saw_done [
        | true ↦ ([], answered s')
        | false ↦ on_chunks size' left chunks s'
      ]
