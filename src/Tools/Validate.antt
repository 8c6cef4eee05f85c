-- ===== src/Tools/Validate.antt =====
-- src/mechagnome/kernel.py, `_validate_tool`, for arguments of the annotated types.
use mechagnome.Names.{is_tool_name, is_blank}
use mechagnome.Base.{
  String, Bool, true, false, not, ◌&&◌, Option, none, some, List, [], ◌∷◌, ◌==◌, nat_eq, string_eq,
}
use mechagnome.Outcome.{
  Result, ok, ◌>>=◌, ◌>>◌, require, some_or, invalid_name, invalid_description, invalid_schema,
  invalid_source, missing_main, sync_main, invalid_main, not_json,
}
use mechagnome.Schema.Host.{Json, MainDef, Host}

-- `mains[-1]`
abbrev pub last_main : List MainDef → Option MainDef
last_main [] = none
last_main (m ∷ []) = some m
last_main (m ∷ n ∷ ms) = last_main (n ∷ ms)

abbrev pub is_object : Json → Bool
is_object (Json.object fs) = true
is_object _ = false

-- The checks of the last definition of `main`.
unfoldable pub check_main : MainDef → Result (Unit {0})
check_main m = do
  require m.is_async sync_main
  require (m.positional == 2 && not m.has_vararg) invalid_main

-- `Kernel._validate_tool`: the text of the schema.
unfoldable pub validate_tool : Host → (name description : String) → Json → String → Result String
unfolding check_main
validate_tool h name description schema source = do
  require (is_tool_name name) invalid_name
  require (not (is_blank description)) invalid_description
  require (is_object schema) invalid_schema
  text ← some_or (h.dumps schema) not_json
  require (not (is_blank source)) invalid_source
  mains ← some_or (h.parse_mains source) invalid_source
  main ← some_or (last_main mains) missing_main
  check_main main
  ok text
