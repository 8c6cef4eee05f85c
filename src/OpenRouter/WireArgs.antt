-- ===== src/OpenRouter/WireArgs.antt =====
-- Arguments that go out as JSON texts come back as they were.
use mechagnome.Base.{
  String, ◌≡◌, refl, ap, ◌∙◌, ◌⊎◌, inl, inr, true, Option, none, some, arith, ◌==◌, string_eq,
  Bool-cases,
}
use mechagnome.Schema.Host.{Json, Fields, contains}
use mechagnome.OpenRouter.Items.{
  Codec, lookup, set_field, as_fields, text_at, object_arguments, encode_argument, decode_argument,
  encode_arguments, decode_arguments, to_wire_args, from_wire_args,
}

lookup-set_field :
    (args : Fields) (name : String) (v w : Json)
    → lookup args name ≡ some w
    → lookup (set_field args name v) name ≡ some v
unfolding lookup set_field
lookup-set_field Fields.end name v w found = absurd (ground arith)
lookup-set_field (Fields.field n u rest) name v w found = elim (Bool-cases (n == name)) [
  | inl here ↦ rw (here, here) refl
  | inr there ↦ rw (there, there) (lookup-set_field rest name v w (rw there at found))
]

set_field-set_field :
    (args : Fields) (name : String) (v w : Json)
    → lookup args name ≡ some w
    → set_field (set_field args name v) name w ≡ args
unfolding lookup set_field
set_field-set_field Fields.end name v w found = refl
set_field-set_field (Fields.field n u rest) name v w found = elim (Bool-cases (n == name)) [
  | inl here ↦
      let same : ◌≡◌ {A = Option Json} (some u) (some w) = rw here at found in
      let same' : u ≡ w = ground arith in rw (here, here, same') refl
  | inr there ↦
      rw (there, there)
        (ap (Fields.field n u) (set_field-set_field rest name v w (rw there at found)))
]

Object-cases :
    (v : Option Json) → (as_fields v ≡ none) ⊎ ((f : Fields) × (v ≡ some (Json.object f)))
Object-cases none = inl refl
Object-cases (some Json.null) = inl refl
Object-cases (some (Json.boolean b)) = inl refl
Object-cases (some (Json.number n)) = inl refl
Object-cases (some (Json.text t)) = inl refl
Object-cases (some (Json.array items)) = inl refl
Object-cases (some (Json.object f)) = inr (f, refl)

module _ (c : Codec) where
  -- The codec reads back the object that it writes for an argument.
  abbrev pub IsCoded : Fields → String → Type 0
  IsCoded args a =
      (f : Fields)
      → lookup args a ≡ some (Json.object f)
      → c.loads (c.dumps (Json.object f)) ≡ some (Json.object f)

  decode-encode :
      (a : String) (args : Fields)
      → text_at args a ≡ none
      → IsCoded args a
      → decode_argument c a (encode_argument c a args) ≡ args
  unfolding encode_argument decode_argument
  decode-encode a args free coded = elim (Object-cases (lookup args a)) [
    | inl other ↦
        let sent : encode_argument c a args ≡ args = rw (encode_argument, other) refl in
        let back : decode_argument c a args ≡ args = rw (decode_argument, free) refl in
        ap (decode_argument c a) sent ∙ back
    | inr (f, found) ↦
        let out = Json.text (c.dumps (Json.object f)) in
        let sent : lookup (set_field args a out) a ≡ some out =
          lookup-set_field args a out (Json.object f) found in
        let written : encode_argument c a args ≡ set_field args a out =
          rw (encode_argument, found) refl in
        let back : decode_argument c a (set_field args a out)
            ≡ set_field (set_field args a out) a (Json.object f) =
          rw (decode_argument, sent, coded f found) refl in
        ap (decode_argument c a) written
        ∙ back
        ∙ set_field-set_field args a out (Json.object f) found
  ]

  -- If the codec reads back the objects that it writes for the arguments of `name` that are sent as JSON
  -- texts, and none of these is a text to begin with, the arguments of a call come back as they were.
  pub from_wire_args-to_wire_args :
      (name : String) (args : Fields)
      → ((a : String) → contains (object_arguments name) a ≡ true → text_at args a ≡ none)
      → ((a : String) → contains (object_arguments name) a ≡ true → IsCoded args a)
      → from_wire_args c name (to_wire_args c name args) ≡ args
  unfolding from_wire_args to_wire_args encode_arguments decode_arguments object_arguments
  from_wire_args-to_wire_args name args free coded = elim (Bool-cases (name == "write_tool")) [
    | inl write ↦ rw write (
        decode-encode "input_schema" args (free "input_schema" (rw write refl))
          (coded "input_schema" (rw write refl)))
    | inr a ↦ elim (Bool-cases (name == "call_tool")) [
      | inl call ↦
          rw (a, call)
            (decode-encode "args" args (free "args" (rw (a, call) refl))
              (coded "args" (rw (a, call) refl)))
      | inr b ↦ rw (a, b) refl
    ]
  ]
