-- ===== src/Outcome.antt =====
-- src/mechagnome/kernel.py: `ToolboxError`, the exceptions that SQLite raises, and transactions.
use mechagnome.Base.{ℕ, String, ◌≡◌, refl, ◌⊎◌, inl, inr, Bool, true, false, Option, arith}

-- The codes of `ToolboxError`, with the details that a caller reads, and the exceptions that
-- leave the kernel as they are.
pub data Error : Type 0 where
  invalid_toolbox_name toolbox_exists unknown_toolbox : Error
  invalid_session_kind invalid_session_origin unknown_session : Error
  invalid_session_context : Option ℕ → Error
  invalid_session invalid_session_metadata session_access_denied : Error
  invalid_annotation_revision : Error
  session_annotation_conflict : (expected actual : ℕ) → Error
  invalid_selection_mode empty_selection : Error
  invalid_name invalid_description invalid_schema invalid_source missing_main sync_main : Error
  invalid_main invalid_write invalid_namespace core_schema_pinned core_tool_required : Error
  unknown_tool unknown_version last_version no_rollback : Error
  stale_base_version : (active : Option ℕ) (base : ℕ) → Error
  not_json invalid_input max_depth max_calls capability_denied : Error
  invalid_call_tool_request detached_runner_closed detached_job_limit detached_start_failed
        unknown_tool_run :
      Error
  -- any other exception, with its text
  exception : (text : String) → Error
  -- asyncio.CancelledError, which is not an `Exception`
  cancelled : Error
  -- sqlite3.IntegrityError
  integrity_error : Error
  -- IndexError
  index_error : Error
  -- a loop of the source that does not end
  diverges : Error

-- What a method returns, or the exception that leaves it.
pub data Result {ℓ} (Value : Type ℓ) : Type ℓ where
  err : (raised : Error) → Result Value
  ok : (value : Value) → Result Value

-- The statements after one that may raise.
infixl 5 ◌>>=◌ ◌>>◌
abbrev pub ◌>>=◌ {ℓ κ} :
    {Value : Type ℓ} {Next : Type κ} → Result Value → (rest : Value → Result Next) → Result Next
err raised >>= rest = err raised
ok value >>= rest = rest value

abbrev pub ◌>>◌ {ℓ} : {Next : Type ℓ} → Result (Unit {0}) → (rest : Result Next) → Result Next
check >> rest = check >>= λ _. rest

-- `if not test: raise error`
abbrev pub require : Bool → Error → Result (Unit {0})
require true e = ok tt
require false e = err e

abbrev pub some_or {ℓ} : {A : Type ℓ} → Option A → Error → Result A
some_or Option.none e = err e
some_or (Option.some a) e = ok a

-- `except ToolboxError as error: if error.code != "unknown_tool": raise`
abbrev pub is_unknown_tool : Error → Bool
is_unknown_tool unknown_tool = true
is_unknown_tool _ = false

-- `isinstance(error, ToolboxError)`
abbrev pub is_toolbox_error : Error → Bool
is_toolbox_error integrity_error = false
is_toolbox_error index_error = false
is_toolbox_error (exception text) = false
is_toolbox_error cancelled = false
is_toolbox_error diverges = false
is_toolbox_error _ = true

-- What `except Exception` does not catch.
abbrev pub is_cancelled : Error → Bool
is_cancelled cancelled = true
is_cancelled _ = false

-- BEGIN IMMEDIATE ... COMMIT, with a rollback and a re-raise on an exception.
abbrev pub transaction : {S A : Type 0} → S → Result (A × S) → Result A × S
transaction s (ok (a, s')) = (ok a, s')
transaction s (err e) = (err e, s)

-- A method after which the next one runs, unless it raised.
abbrev pub then_run : {S A B : Type 0} → Result A × S → (A → S → Result B × S) → Result B × S
then_run (ok a, s) f = f a s
then_run (err e, s) f = (err e, s)

-- The step that a successful chain took first.
pub >>=-eq-ok {ℓ κ} :
    {Value : Type ℓ} {Next : Type κ} (first : Result Value) (rest : Value → Result Next)
    {end : Next}
    → (first >>= rest) ≡ ok end
    → (value : Value) × (first ≡ ok value) × (rest value ≡ ok end)
>>=-eq-ok (err raised) rest done = absurd (ground arith)
>>=-eq-ok (ok value) rest done = (value, refl, done)

pub Result-cases {ℓ} :
    {Value : Type ℓ} (r : Result Value)
    → ((raised : Error) × (r ≡ err raised)) ⊎ ((value : Value) × (r ≡ ok value))
Result-cases (err raised) = inl (raised, refl)
Result-cases (ok value) = inr (value, refl)
