-- ===== src/OpenRouter/Turn.antt =====
-- src/mechagnome/openrouter.py, the end of `_stream_response`, and `_completion_response` after its bytes
-- are read, whose deadline and size limit are left out.
use Prim.Native.String.{◌++◌ as append}
use mechagnome.Base.{
  ℕ, String, Bool, true, false, not, ◌&&◌, ◌||◌, Option, none, some, List, [], ◌∷◌, ◌++◌, map, ◌==◌,
  string_eq, if◌then◌else◌,
}
use mechagnome.Base.Rows.{where_rows}
use mechagnome.Schema.Host.{Json, Items, Fields}
use mechagnome.OpenRouter.Failures.{
  Failure, Status, no_details, Outcome, answered, failed, ◌>>=◌, ◌>>◌,
}
use mechagnome.OpenRouter.Items.{
  ℤ, Codec, ToolCall, lookup, as_fields, is_present, text_at, bad_response, or_fail, ensure,
  tool_calls, message_text, as_items, has_text, stream_error, nonempty,
}
use mechagnome.OpenRouter.Stream.{Assembly, Read, Chunk, fresh, optional_text, reason_of, on_chunks}
use mechagnome.OpenRouter.Retries.{StreamEvent}

-- `ModelTurn`
pub record ModelTurn : Type 0 where
  pub text : Option String
  pub calls : List ToolCall
  pub reasoning : Option String
  pub reasoning_details : List Fields
  pub response_items : List Fields
  pub total_tokens : Option ℕ

abbrev pub truncated : Failure
truncated = record { code = "openrouter_truncated"; details = no_details }

-- `reason in {None, ...}`
abbrev pub none_or_in : List String → Option String → Bool
none_or_in texts none = true
none_or_in [] (some t) = false
none_or_in (x ∷ xs) (some t) = t == x || none_or_in xs (some t)

abbrev pub is_text : Option String → String → Bool
is_text none t = false
is_text (some s) t = s == t

-- `openrouter_finish_reason` with its details
unfoldable pub finish_failure : (incomplete finish status error_type : Option String) → Failure
finish_failure incomplete finish status error_type = record {
  code = "openrouter_finish_reason";
  details = record no_details {
    finish_reason = elim incomplete [
      | none ↦ or_reason finish status
      | some t ↦ if t == "" then or_reason finish status else some t
    ];
    status = elim status [ none ↦ none | some s ↦ some (Status.response s) ];
    error_type = error_type;
  };
}
  where
    or_reason : Option String → Option String → Option String
    or_reason none b = b
    or_reason (some t) b = if t == "" then b else some t

-- `"".join(parts)`
unfoldable pub joined : List String → String
joined [] = ""
joined (t ∷ ts) = append t (joined ts)

abbrev pub items_of : List (ℤ × Fields) → List Fields
items_of [] = []
items_of ((i, item) ∷ rest) = item ∷ items_of rest

module _ (c : Codec) where
  unfoldable pub messages_text : List Fields → Outcome String
  messages_text [] = answered ""
  messages_text (item ∷ items) = do
    text ← message_text c item
    more ← messages_text items
    answered (append text more)

  abbrev pub of_type : String → Fields → Bool
  of_type kind item = has_text c item "type" kind

  -- The text parts, with the texts of the messages if no text was streamed.
  unfoldable pub final_parts : Assembly → Outcome (List String)
  unfolding messages_text
  final_parts s = elim s.text_parts [
    | t ∷ ts ↦ answered (t ∷ ts)
    | [] ↦ do
      text ← messages_text (where_rows (of_type "message") (items_of s.output_items))
      answered (if text == "" then [] else text ∷ [])
  ]

  -- What follows the loops of `_stream_response`.
  unfoldable pub finish : Assembly → Outcome ModelTurn
  unfolding finish_failure final_parts joined
  finish s = do
    ensure s.saw_done truncated
    ensure
        (is_text s.terminal_status "completed"
          && none_or_in ("stop" ∷ "tool_calls" ∷ []) s.terminal_finish_reason)
        (finish_failure s.incomplete_reason s.terminal_finish_reason s.terminal_status
          s.terminal_error_type)
    let items = items_of s.output_items
    calls ← tool_calls c items
    parts ← final_parts s
    answered (record {
      text = nonempty c (some (joined parts));
      calls = calls;
      reasoning = nonempty c (some (joined s.reasoning_parts));
      reasoning_details = where_rows (of_type "reasoning") items;
      response_items = items;
      total_tokens = s.total_tokens;
    })

  abbrev pub text_event : String → StreamEvent ModelTurn
  text_event t = record { text_delta = t; turn = none }

  -- The events of a reading, with the final one, and the error raised after them, if any.
  unfoldable pub response_events : Read → List (StreamEvent ModelTurn) × Option Failure
  unfolding finish
  response_events (texts, end) =
      let events = map text_event texts in
      elim (end >>= finish) [
        | failed e ↦ (events, some e)
        | answered turn ↦ (events ++ (record { text_delta = ""; turn = some turn } ∷ []), none)
      ]

  -- `OpenRouterModel._stream_response`, of a response that is no error.
  unfoldable pub stream_response : List Chunk → List (StreamEvent ModelTurn) × Option Failure
  unfolding on_chunks response_events
  stream_response chunks = response_events (on_chunks c 0 [] chunks fresh)

  -- The loop over `output`: the messages.
  unfoldable pub completion_messages : Items → Outcome (List Fields)
  completion_messages Items.nil = answered []
  completion_messages (Items.cons value rest) = do
    item ← or_fail bad_response (as_fields (some value))
    ensure (of_type "reasoning" item || of_type "message" item) bad_response
    more ← completion_messages rest
    answered (if of_type "reasoning" item then more else item ∷ more)

  abbrev pub only : List Fields → Outcome Fields
  only (item ∷ []) = answered item
  only _ = failed bad_response

  -- `OpenRouterModel._completion_response`, of the value of its bytes, if they are JSON.
  unfoldable pub completion_of : Option Json → Outcome String
  unfolding completion_messages finish_failure
  completion_of value = do
    payload ← or_fail bad_response (as_fields value)
    ensure (not (is_present (lookup payload "error")))
        (stream_error c (lookup payload "error") (lookup payload "error_type"))
    status ← optional_text (lookup payload "status")
    finish_reason ← optional_text (lookup payload "finish_reason")
    ensure (is_text status "completed" && none_or_in ("stop" ∷ []) finish_reason) (
        finish_failure (reason_of c (lookup payload "incomplete_details")) finish_reason status
          (text_at payload "error_type"))
    output ← or_fail bad_response (as_items c (lookup payload "output"))
    messages ← completion_messages output
    message ← only messages
    message_text c message
