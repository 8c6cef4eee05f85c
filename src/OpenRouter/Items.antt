-- ===== src/OpenRouter/Items.antt =====
-- src/mechagnome/openrouter.py, `_to_wire_args`, `_from_wire_args`, `_tool_call`, `_response_message_text`,
-- `_stream_error` and `_http_error`: what is read from one JSON value. Python's `json`, `str` and `int`
-- are the fields of `Codec`.
use Prim.Native.String.{◌++◌ as append}
use mechagnome.Base.{
  ℕ, min, String, Bool, true, false, not, ◌&&◌, Option, none, some, List, [], ◌∷◌, ◌==◌, nat_eq,
  string_eq, if◌then◌else◌,
}
use mechagnome.Base.Rows.{or_else}
use mechagnome.Schema.Host.{Json, Items, Fields}
use mechagnome.OpenRouter.Failures.{
  Failure, Status, no_details, is_known, Outcome, answered, failed, ◌>>=◌, ◌>>◌,
}

-- An `int`: `negsuc n` is - n - 1.
pub data ℤ : Type 0 where
  pos : ℕ → ℤ
  negsuc : ℕ → ℤ

pub record Codec : Type 0 where
  -- `json.dumps(value, separators=(",", ":"))`
  pub dumps : Json → String
  -- `json.loads`; `none` for a JSONDecodeError
  pub loads : String → Option Json
  pub lower : String → String
  pub strip : String → String
  -- bytes.decode("utf-8"), of a line
  pub decode : List ℕ → Option String
  -- whether the number of this text is 0, and its value if it is an `int`
  pub is_zero : String → Bool
  pub int_of : String → Option ℤ

-- `mapping.get(name)`, where a null is there
unfoldable pub lookup : Fields → String → Option Json
lookup Fields.end name = none
lookup (Fields.field n v rest) name = if n == name then some v else lookup rest name

-- `mapping[name] = value`, for a name that is there
unfoldable pub set_field : Fields → String → Json → Fields
set_field Fields.end name v = Fields.end
set_field (Fields.field n w rest) name v =
    if n == name then Fields.field n v rest else Fields.field n w (set_field rest name v)

-- `isinstance(value, str)`, and `isinstance(value, Mapping)`
abbrev pub as_text : Option Json → Option String
as_text (some (Json.text t)) = some t
as_text _ = none

abbrev pub as_fields : Option Json → Option Fields
as_fields (some (Json.object fields)) = some fields
as_fields _ = none

-- `value is not None`
abbrev pub is_present : Option Json → Bool
is_present none = false
is_present (some Json.null) = false
is_present (some _) = true

-- `mapping.get(...)` that is a text
abbrev pub text_at : Fields → String → Option String
text_at fields name = as_text (lookup fields name)

-- The arguments of `JSON_OBJECT_ARGUMENTS.get(name, {})`
unfoldable pub object_arguments : String → List String
object_arguments name =
    if name == "write_tool"
    then "input_schema" ∷ []
    else if name == "call_tool"
    then "args" ∷ []
    else []

abbrev pub bad_response : Failure
bad_response = record { code = "openrouter_response"; details = no_details }

abbrev pub bad_call : Failure
bad_call = record { code = "openrouter_tool_call"; details = no_details }

abbrev pub or_fail : {A : Type 0} → Failure → Option A → Outcome A
or_fail e none = failed e
or_fail e (some a) = answered a

abbrev pub ensure : Bool → Failure → Outcome (Unit {0})
ensure true e = answered tt
ensure false e = failed e

pub record ToolCall : Type 0 where
  pub name : Json
  pub args : Fields
  -- none: a fresh uuid
  pub id : Option Json

module _ (c : Codec) where
  -- One pass of the loop of `_to_wire_args`.
  unfoldable pub encode_argument : String → Fields → Fields
  encode_argument argument args = elim (as_fields (lookup args argument)) [
    | none ↦ args
    | some fields ↦ set_field args argument (Json.text (c.dumps (Json.object fields)))
  ]

  unfoldable pub encode_arguments : List String → Fields → Fields
  unfolding encode_argument
  encode_arguments [] args = args
  encode_arguments (a ∷ as') args = encode_arguments as' (encode_argument a args)

  -- `OpenRouterModel._to_wire_args`
  unfoldable pub to_wire_args : String → Fields → Fields
  unfolding encode_arguments object_arguments
  to_wire_args name args = encode_arguments (object_arguments name) args

  -- One pass of the loop of `_from_wire_args`.
  unfoldable pub decode_argument : String → Fields → Fields
  decode_argument argument args = elim (text_at args argument) [
    | none ↦ args
    | some t ↦ elim (c.loads t) [ none ↦ args | some value ↦ set_field args argument value ]
  ]

  unfoldable pub decode_arguments : List String → Fields → Fields
  unfolding decode_argument
  decode_arguments [] args = args
  decode_arguments (a ∷ as') args = decode_arguments as' (decode_argument a args)

  -- `OpenRouterModel._from_wire_args`
  unfoldable pub from_wire_args : String → Fields → Fields
  unfolding decode_arguments object_arguments
  from_wire_args name args = decode_arguments (object_arguments name) args

  -- `_from_wire_args` for any name: an unhashable one is a TypeError.
  unfoldable pub wired_for : Json → Fields → Outcome Fields
  unfolding from_wire_args
  wired_for (Json.text name) args = answered (from_wire_args name args)
  wired_for (Json.array items) args = failed bad_call
  wired_for (Json.object fields) args = failed bad_call
  wired_for _ args = answered args

  -- `bool(value)`
  unfoldable pub is_truthy : Json → Bool
  is_truthy Json.null = false
  is_truthy (Json.boolean b) = b
  is_truthy (Json.number n) = not (c.is_zero n)
  is_truthy (Json.text t) = not (t == "")
  is_truthy (Json.array Items.nil) = false
  is_truthy (Json.object Fields.end) = false
  is_truthy _ = true

  -- `mapping.get(name)` that is truthy
  abbrev pub truthy_at : Fields → String → Option Json
  truthy_at fields name = elim (lookup fields name) [
    | none ↦ none
    | some v ↦ if is_truthy v then some v else none
  ]

  -- `json.loads(arguments) if isinstance(arguments, str) else arguments`
  abbrev pub parsed_arguments : Option Json → Option Json
  parsed_arguments none = c.loads "{}"
  parsed_arguments (some (Json.text t)) = c.loads t
  parsed_arguments (some v) = some v

  -- `OpenRouterModel._tool_call`, of an item of the type `function_call`
  unfoldable pub tool_call : Fields → Outcome ToolCall
  unfolding is_truthy wired_for
  tool_call item = do
    args ← or_fail bad_call (as_fields (parsed_arguments (truthy_at item "arguments")))
    name ← or_fail bad_call (lookup item "name")
    decoded ← wired_for name args
    answered (record {
      name = name;
      args = decoded;
      id = or_else (truthy_at item "call_id") (truthy_at item "id");
    })

  unfoldable pub tool_calls : List Fields → Outcome (List ToolCall)
  unfolding tool_call
  tool_calls [] = answered []
  tool_calls (item ∷ items) =
      if elim (text_at item "type") [ none ↦ false | some t ↦ t == "function_call" ]
      then (do call ← tool_call item; calls ← tool_calls items; answered (call ∷ calls))
      else tool_calls items

  -- The parts of a message's content, joined.
  unfoldable pub content_text : Items → Outcome String
  content_text Items.nil = answered ""
  content_text (Items.cons part rest) = do
    fields ← or_fail bad_response (as_fields (some part))
    kind ← or_fail bad_response (text_at fields "type")
    ensure (kind == "output_text") bad_response
    text ← or_fail bad_response (text_at fields "text")
    more ← content_text rest
    answered (append text more)

  abbrev pub as_items : Option Json → Option Items
  as_items (some (Json.array items)) = some items
  as_items _ = none

  abbrev pub has_text : Fields → String → String → Bool
  has_text fields name value = elim (text_at fields name) [ none ↦ false | some t ↦ t == value ]

  -- `OpenRouterModel._response_message_text`; the caller turns its TypeError into `bad_response`.
  unfoldable pub message_text : Fields → Outcome String
  unfolding content_text
  message_text item = do
    ensure (has_text item "type" "message" && has_text item "role" "assistant") bad_response
    content ← or_fail bad_response (as_items (lookup item "content"))
    content_text content

  -- `normalized_type or value`
  abbrev pub or_text : Option String → Option String → Option String
  or_text a none = a
  or_text none (some t) = some t
  or_text (some s) (some t) = if s == "" then some t else some s

  abbrev pub nonempty : Option String → Option String
  nonempty none = none
  nonempty (some t) = if t == "" then none else some t

  -- `OpenRouterModel._stream_error`
  unfoldable pub stream_error : Option Json → (error_type : Option Json) → Failure
  stream_error error error_type =
      let own = as_text error_type in
      let found : Option String = elim (as_fields error) [
        | none ↦ own
        | some fields ↦ or_text (or_text own (text_at fields "type")) (text_at fields "code")
      ] in
      record {
        code = "openrouter_stream";
        details = record no_details { error_type = nonempty found };
      }

  -- The first candidate that is a known type, in small letters.
  unfoldable pub known_among : List (Option String) → Option String
  known_among [] = none
  known_among (none ∷ rest) = known_among rest
  known_among (some t ∷ rest) = if is_known (c.lower t) then some (c.lower t) else known_among rest

  abbrev pub field_of : Option Fields → String → Option String
  field_of none name = none
  field_of (some fields) name = text_at fields name

  -- `payload.get("error", payload)`
  abbrev pub provider_error : Fields → Option Fields
  provider_error payload = elim (lookup payload "error") [
    | none ↦ some payload
    | some v ↦ as_fields (some v)
  ]

  abbrev pub metadata_of : Option Fields → Option Fields
  metadata_of none = none
  metadata_of (some fields) = as_fields (lookup fields "metadata")

  unfoldable pub http_candidates : Option Json → List (Option String)
  http_candidates payload = elim (as_fields payload) [
    | none ↦ none ∷ none ∷ none ∷ none ∷ []
    | some fields ↦
        let error = provider_error fields in
        text_at fields "error_type"
        ∷ field_of error "error_type"
        ∷ field_of error "code"
        ∷ field_of (metadata_of error) "error_type"
        ∷ []
  ]

  -- `OpenRouterModel._http_error`: the payload, if it is JSON, and the milliseconds of `Retry-After`, if it is
  -- a finite number that is not negative.
  unfoldable pub http_error : ℕ → Option Json → (retry_after : Option ℕ) → Failure
  unfolding known_among http_candidates
  http_error status payload retry_after = record {
    code = "openrouter_http";
    details = record no_details {
      status = some (Status.http status);
      error_type = known_among (http_candidates payload);
      retry_after = elim retry_after [ none ↦ none | some ms ↦ some (min ms 30000) ];
    };
  }
