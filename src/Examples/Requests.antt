-- ===== src/Examples/Requests.antt =====
-- Requests to OpenRouter that fail once, and a response in two chunks.
use mechagnome.Base.{
  Option, arith, ℕ, suc, ◌<◌, String, ◌≡◌, refl, sym, inl, inr, eq_of_beq, Bool-cases, ◌⊎◌, true,
  false, none, some, List, [], ◌∷◌, arith, ◌==◌, nat_eq, string_eq, if◌then◌else◌,
}
use mechagnome.Schema.Host.{Json, Fields, contains}
use mechagnome.OpenRouter.Failures.{Failure, no_details, answered, failed}
use mechagnome.OpenRouter.Retries.{Attempt, Moment, StreamAttempt, complete, stream}
use mechagnome.OpenRouter.Attempts.{Tried, complete-Tried}
use mechagnome.OpenRouter.Visible.{visible, stream-visible}
use mechagnome.OpenRouter.Items.{
  Codec, tool_calls, object_arguments, text_at, nonempty, lookup, to_wire_args, from_wire_args,
}
use mechagnome.OpenRouter.Stream.{
  Chunk, Assembly, fresh, on_lines, on_line, data_of, strip_returns, on_payload, on_type, on_text,
  on_terminal,
}
use mechagnome.Tools.Catalog.{starts_with}
use mechagnome.Base.Rows.{where_rows}
use mechagnome.OpenRouter.Turn.{ModelTurn, finish, final_parts, joined, none_or_in, stream_response}
use mechagnome.OpenRouter.Lines.{stream_response-concat}
use mechagnome.OpenRouter.Ended.{Some, HasData, Reports, finish-on_lines}
use mechagnome.OpenRouter.WireArgs.{IsCoded, from_wire_args-to_wire_args}

abbrev lower : String → String
lower t = t

abbrev moment : Moment
moment = record {
  cancelled_at_failure = false;
  cancelled_before = false;
  now_before = 1000;
  cancelled_during = false;
  cancelled_after = false;
  now_after = 1500;
}

abbrev timed_out : Failure
timed_out = record { code = "openrouter_timeout"; details = no_details }

-- The first attempt times out, the others answer.
abbrev world : ℕ → Attempt
world i = record {
  outcome = if i == 0 then failed timed_out else answered "hello";
  moment = moment;
}

complete-Tried_example : Tried lower 180000 world 0 (complete lower 180000 "key" world)
complete-Tried_example = complete-Tried lower 180000 "key" world refl

abbrev streams : ℕ → StreamAttempt (Unit {0})
streams i = record {
  events = if i == 0 then [] else record { text_delta = "hello"; turn = some tt } ∷ [];
  failure = if i == 0 then some timed_out else none;
  moment = moment;
}

stream-visible_example :
    (n : ℕ) × (suc n ≡ (stream lower 180000 "key" streams).run.attempts)
    × (n < 3)
    × (visible (stream lower 180000 "key" streams).yielded ≡ visible (streams n).events)
stream-visible_example = stream-visible lower 180000 streams "key" refl

-- Lines of one byte: `1` for a delta, `2` for the completed response, and `0` for the end marker.
abbrev delta_event : Json
delta_event = Json.object (
    Fields.field "type" (Json.text "response.output_text.delta")
      (Fields.field "delta" (Json.text "hello") Fields.end))

abbrev completed_event : Json
completed_event = Json.object (
    Fields.field "type" (Json.text "response.completed") (
      Fields.field "response"
        (Json.object (Fields.field "status" (Json.text "completed") Fields.end)) Fields.end))

abbrev codec : Codec
codec = record {
  dumps = λ value. "{}";
  loads = λ t.
      if t == "1"
      then some delta_event
      else if t == "2"
      then some completed_event
      else some (Json.object Fields.end);
  lower = λ t. t;
  strip = λ t. t;
  decode = λ bytes. elim bytes [
    | [] ↦ some ""
    | b ∷ bs ↦ some (if b == 1 then "data:1" else if b == 2 then "data:2" else "data:[DONE]")
  ];
  is_zero = λ t. false;
  int_of = λ t. none;
}

abbrev chunks : List Chunk
chunks =
    record { late = false; bytes = 1 ∷ 10 ∷ 2 ∷ [] }
    ∷ record { late = false; bytes = 10 ∷ 0 ∷ 10 ∷ [] }
    ∷ []

stream_response-concat_example :
    stream_response codec chunks
    ≡ stream_response codec (record { late = false; bytes = 1 ∷ 10 ∷ 2 ∷ 10 ∷ 0 ∷ 10 ∷ [] } ∷ [])
stream_response-concat_example =
    stream_response-concat codec chunks (refl, (refl, tt)) (omega arith)

abbrev lines : List (List ℕ)
lines = (1 ∷ []) ∷ (2 ∷ []) ∷ (0 ∷ []) ∷ []

abbrev assembled : Assembly
assembled = record fresh {
  text_parts = "hello" ∷ [];
  terminal_status = some "completed";
  saw_done = true;
}

abbrev turn : ModelTurn
turn = record {
  text = some "hello";
  calls = [];
  reasoning = none;
  reasoning_details = [];
  response_items = [];
  total_tokens = none;
}

read_ok : on_lines codec lines fresh ≡ ("hello" ∷ [], answered assembled)
unfolding on_lines on_line data_of strip_returns starts_with on_payload on_type on_text on_terminal
    lookup
read_ok = refl

finish_ok : finish codec assembled ≡ answered turn
unfolding finish tool_calls final_parts joined where_rows
finish_ok = refl

finish-on_lines_example :
    Some (λ raw. HasData codec raw "[DONE]") lines
    × ((reason : Option String) × (none_or_in ("stop" ∷ "tool_calls" ∷ []) reason ≡ true)
        × Some (Reports codec (some "completed") reason) lines)
    × ((◌≡◌ {A = List String} ("hello" ∷ []) [])
        ⊎ (turn.text ≡ nonempty codec (some (joined ("hello" ∷ [])))))
finish-on_lines_example =
    finish-on_lines codec lines ("hello" ∷ []) assembled turn read_ok finish_ok

abbrev call_args : Fields
call_args =
    Fields.field "args" (Json.object Fields.end)
      (Fields.field "name" (Json.text "greet") Fields.end)

free : (a : String) → contains (object_arguments "call_tool") a ≡ true → text_at call_args a ≡ none
unfolding lookup object_arguments
free a named = elim (Bool-cases ("args" == a)) [
  | inl same ↦ rw (sym (eq_of_beq "args" a same)) refl
  | inr other ↦ absurd (ground (arith, other, named))
]

coded : (a : String) → contains (object_arguments "call_tool") a ≡ true → IsCoded codec call_args a
unfolding lookup object_arguments
coded a named f found = elim (Bool-cases ("args" == a)) [
  | inl same ↦ rw (sym (eq_of_beq "args" a same)) at found
  | inr other ↦ absurd (ground (arith, other, named))
]

from_wire_args-to_wire_args_example :
    from_wire_args codec "call_tool" (to_wire_args codec "call_tool" call_args) ≡ call_args
from_wire_args-to_wire_args_example =
    from_wire_args-to_wire_args codec "call_tool" call_args free coded
