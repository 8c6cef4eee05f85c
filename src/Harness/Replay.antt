-- ===== src/Harness/Replay.antt =====
-- src/mechagnome/harness.py, `_session_replay`: the messages of a conversation, rebuilt from its
-- committed events. The pages of `read_session` follow one another, so the events of a session are
-- one list. A field of an assistant's message that is empty is left out.
pub mod Settled
use Prim.Native.String.{◌++◌ as append}
use mechagnome.Base.{
  ℕ, zero, suc, ◌+◌, String, Bool, true, false, not, ◌&&◌, ◌||◌, Option, none, some, List, [], ◌∷◌,
  ◌++◌, map, ltb, ◌==◌, nat_eq, string_eq, if◌then◌else◌,
}
use mechagnome.Base.Rows.{length, find, delete_rows}
use mechagnome.Outcome.{Result, ok, err, ◌>>=◌, unknown_session, invalid_session_context, diverges}
use mechagnome.Schema.Host.{contains}
use mechagnome.Events.{take}

pub record ToolCall : Type 0 where
  pub id : String
  pub name : String

-- The payload of a `model` event.
pub record Turn : Type 0 where
  pub text : Option String
  pub calls : List ToolCall
  pub reasoning : Option String
  pub reasoning_details : Option String
  pub response_items : Option String

pub data Message : Type 0 where
  user_message : (content : String) → Message
  assistant : Turn → Message
  tool_message : (tool_call_id : String) (name : Option String) (content : String) → Message

-- What the replay reads of an event.
pub data Record : Type 0 where
  user : (content : String) (external cancelled_previous_turn : Bool) → Record
  model : Turn → Record
  tool_observation : (model_call_id observation : String) → Record
  final : Record
  cancelled : (known_mode user_initiated : Bool) → Record
  other : Record

pub record Entry : Type 0 where
  pub seq : ℕ
  pub entry : Record

pub record State : Type 0 where
  pub messages : List Message
  pub call_names : List ToolCall
  pub pending_call_ids : List String
  pub prompt_start : Option ℕ
  pub safe_length : ℕ
  pub cancelled_prompt_pending : Bool

abbrev pub header : String
header = "<user cancelled previous turn>\n\n"

-- `call_names.get(call_id)`; the names are newest first.
abbrev pub name_of : List ToolCall → String → Option String
name_of calls i = elim (find (λ (c : ToolCall). c.id == i) calls) [
  | none ↦ none
  | some c ↦ some c.name
]

abbrev pub ids_of : List ToolCall → List String
ids_of calls = map (λ (c : ToolCall). c.id) calls

-- `call_names[call["id"]] = call["name"]` for each call
abbrev pub name_all : List ToolCall → List ToolCall → List ToolCall
name_all [] names = names
name_all (c ∷ cs) names = name_all cs (c ∷ names)

abbrev pub is_none_left : List String → Bool
is_none_left [] = true
is_none_left (i ∷ is) = false

-- `safe_length = len(messages)` if no call is pending
abbrev pub settle : State → State
settle s = record s {
  safe_length = if is_none_left s.pending_call_ids then length s.messages else s.safe_length;
}

-- The message of a user with the given text.
abbrev pub said : State → String → (external : Bool) → State
said s text external = record s {
  messages = s.messages ++ (user_message text ∷ []);
  prompt_start = some (length s.messages);
  safe_length = length (s.messages ++ (user_message text ∷ []));
  pending_call_ids = [];
  cancelled_prompt_pending = if external then false else s.cancelled_prompt_pending;
}

unfoldable pub on_user : State → String → (external cancelled_previous : Bool) → State
on_user s content external cancelled_previous =
    said s
      (if cancelled_previous || s.cancelled_prompt_pending && external
        then append header content
        else content)
      external

unfoldable pub on_model : State → Turn → State
on_model s turn = settle (record s {
  messages = s.messages ++ (assistant turn ∷ []);
  call_names = name_all turn.calls s.call_names;
  pending_call_ids = ids_of turn.calls;
})

unfoldable pub on_observation : State → (call_id observation : String) → State
on_observation s call_id observation = settle (record s {
  messages = s.messages ++ (tool_message call_id (name_of s.call_names call_id) observation ∷ []);
  pending_call_ids = delete_rows (λ i. i == call_id) s.pending_call_ids;
})

unfoldable pub on_cancelled : State → (known_mode user_initiated : Bool) → State
on_cancelled s known_mode user_initiated = record s {
  messages = elim s.prompt_start [
    | none ↦ s.messages
    | some start ↦ take (if known_mode then s.safe_length else start) s.messages
  ];
  prompt_start = none;
  pending_call_ids = [];
  cancelled_prompt_pending = user_initiated || s.cancelled_prompt_pending;
}

-- One round of the loop over the events.
unfoldable pub replay_step : State → Record → State
unfolding on_user on_model on_observation on_cancelled
replay_step s (user content external cancelled_previous) =
    on_user s content external cancelled_previous
replay_step s (model turn) = on_model s turn
replay_step s (tool_observation call_id observation) = on_observation s call_id observation
replay_step s final = record s {
  prompt_start = none;
  safe_length = length s.messages;
  pending_call_ids = [];
}
replay_step s (cancelled known_mode user_initiated) = on_cancelled s known_mode user_initiated
replay_step s other = s

-- The loop, up to `through_seq`.
unfoldable pub replay_from : Option ℕ → State → List Entry → State
replay_from through s [] = s
replay_from through s (e ∷ es) =
    let rest = replay_from through (replay_step s e.entry) es in
    if (elim through [ none ↦ false | some n ↦ ltb n e.seq ]) then s else rest

-- `_SessionReplay`
pub record Replay : Type 0 where
  pub messages : List Message
  pub cancelled_prompt_pending : Bool

abbrev pub start_from : Replay → State
start_from source = record {
  messages = source.messages;
  call_names = [];
  pending_call_ids = [];
  prompt_start = none;
  safe_length = length source.messages;
  cancelled_prompt_pending = source.cancelled_prompt_pending;
}

-- A session, by its fork context and its events.
pub record Log : Type 0 where
  pub context : Option (String × ℕ)
  pub entries : List Entry

abbrev pub replay_of : State → Replay
replay_of s = record {
  messages = s.messages;
  cancelled_prompt_pending = s.cancelled_prompt_pending;
}

-- `_session_replay`; the fuel bounds the chain of fork contexts.
unfoldable pub session_replay :
    ℕ → (String → Option Log) → (seen : List String) → (through : Option ℕ) → String → Result Replay
unfolding replay_from
session_replay zero logs seen through session = err diverges
session_replay (suc fuel) logs seen through session =
    if contains seen session then err (invalid_session_context none) else elim (logs session) [
      | none ↦ err unknown_session
      | some log ↦ elim log.context [
        | none ↦ ok (
            replay_of (
              replay_from through
                (start_from (record { messages = []; cancelled_prompt_pending = false }))
                log.entries))
        | some (source, seq) ↦ elim (session_replay fuel logs (session ∷ seen) (some seq) source) [
          | err e ↦ err e
          | ok r ↦ ok (replay_of (replay_from through (start_from r) log.entries))
        ]
      ]
    ]
