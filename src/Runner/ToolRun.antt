-- ===== src/Runner/ToolRun.antt =====
-- src/mechagnome/isolation.py: the life of one `_ToolRun`, in `_append_run_output`, `cancel_tool_run`, `close`
-- and `_finish_run`. The output is the list of its UTF-8 bytes; results and errors are texts.
pub mod Life
use mechagnome.Base.{
  ℕ, zero, suc, ◌+◌, ◌-◌, ◌*◌, ◌/◌, ◌%◌, ◌^◌, ◌≤◌, ◌<◌, min, max, String, ◌≡◌, refl, sym, ap, ◌∙◌,
  ◌≢◌, ◌↔◌, ◌⊎◌, inl, inr, Bool, true, false, not, ◌&&◌, ◌||◌, Option, none, some, List, [], ◌∷◌,
  ◌++◌, map, arith, ltb, leb, ◌==◌, nat_eq, string_eq, beq_refl, eq_of_beq, ne_of_beq, beq_of_ne,
  beq_sym, if◌then◌else◌, Bool-cases, Option-cases,
}
use mechagnome.Base.Rows.{length, find, where_rows, delete_rows, is_some}

pub data Status : Type 0 where
  running cancelling succeeded failed cancelled : Status

pub data StopReason : Type 0 where
  cancel shutdown : StopReason

-- The fields of `_ToolRun` that change.
pub record ToolRun : Type 0 where
  pub status : Status
  pub output_tail : List ℕ
  pub truncated : Bool
  pub result : Option String
  pub error : Option String
  pub stop_requested : Bool
  pub generation : ℕ
  pub stop_reason : Option StopReason

abbrev pub started : ToolRun
started = record {
  status = running;
  output_tail = [];
  truncated = false;
  result = none;
  error = none;
  stop_requested = false;
  generation = 0;
  stop_reason = none;
}

abbrev pub max_output_bytes : ℕ
max_output_bytes = 262144

abbrev pub drop {ℓ} : {A : Type ℓ} → ℕ → List A → List A
drop zero xs = xs
drop (suc n) [] = []
drop (suc n) (x ∷ xs) = drop n xs

-- `byte & 0xC0 == 0x80`
abbrev pub is_continuation : ℕ → Bool
is_continuation b = b / 64 == 2

-- `while combined and combined[0] & 0xC0 == 0x80: combined = combined[1:]`
unfoldable pub drop_continuations : List ℕ → List ℕ
drop_continuations [] = []
drop_continuations (b ∷ bs) =
    let rest = drop_continuations bs in if is_continuation b then rest else b ∷ bs

-- `combined[-_MAX_OUTPUT_BYTES:]`, cut at the start of a character; `limit` is the bound.
unfoldable pub keep_tail : ℕ → List ℕ → List ℕ
unfolding drop_continuations
keep_tail limit bytes = drop_continuations (drop (length bytes - limit) bytes)

-- `_append_run_output`, without the notices
unfoldable pub append_output : ToolRun → List ℕ → ToolRun
unfolding keep_tail
append_output run [] = run
append_output run (b ∷ bs) =
    let combined = run.output_tail ++ (b ∷ bs) in
    if ltb max_output_bytes (length combined)
    then record run {
      output_tail = keep_tail max_output_bytes combined;
      truncated = true;
      generation = run.generation + 1;
    }
    else record run { output_tail = combined; generation = run.generation + 1 }

abbrev pub is_running : Status → Bool
is_running running = true
is_running _ = false

abbrev pub is_active : Status → Bool
is_active running = true
is_active cancelling = true
is_active _ = false

abbrev stopped : ToolRun → StopReason → ToolRun
stopped run reason = record run {
  status = cancelling;
  stop_reason = some reason;
  generation = run.generation + 1;
  stop_requested = true;
}

-- `cancel_tool_run`, once the run is visible: the run, and `cancellation_requested`.
unfoldable pub request_cancel : ToolRun → ToolRun × Bool
request_cancel run = if is_running run.status then (stopped run cancel, true) else (run, false)

-- `close`, for each run
unfoldable pub request_shutdown : ToolRun → ToolRun
request_shutdown run = if is_running run.status then stopped run shutdown else run

-- What the worker reports: a result with its encoded size, or an error.
pub data Report : Type 0 where
  success : (result : String) (bytes : ℕ) → Report
  failure : (error : String) → Report

abbrev pub max_result_bytes : ℕ
max_result_bytes = 1048576

-- The status, the result and the error that `_finish_run` would store.
unfoldable pub accepted : Report → Status × Option String × Option String
accepted (failure e) = (failed, none, some e)
accepted (success r n) =
    if ltb max_result_bytes n
    then (failed, none, some "detached_result_too_large")
    else (succeeded, some r, none)

unfoldable pub ended : ToolRun → Option StopReason → Report → ToolRun
unfolding accepted
ended run (some cancel) report = record run {
  status = cancelled;
  result = none;
  error = some "tool_run_cancelled";
}
ended run (some shutdown) report = record run {
  status = failed;
  result = none;
  error = some "detached_shutdown";
}
ended run none report =
    let (s, r, e) = accepted report in record run { status = s; result = r; error = e }

-- `_finish_run`, up to the notices
unfoldable pub finish_run : ToolRun → Report → ToolRun
unfolding ended
finish_run run report =
    if is_active run.status
    then (let run' = ended run run.stop_reason report in
        record run' { generation = run.generation + 1 })
    else run

pub data Event : Type 0 where
  output : List ℕ → Event
  cancel_request shutdown_request : Event
  finish : Report → Event

unfoldable pub step : ToolRun → Event → ToolRun
unfolding append_output request_cancel request_shutdown finish_run
step run (output bytes) = append_output run bytes
step run cancel_request = (request_cancel run).0
step run shutdown_request = request_shutdown run
step run (finish report) = finish_run run report

unfoldable pub run_events : ToolRun → List Event → ToolRun
run_events run [] = run
run_events run (e ∷ es) = run_events (step run e) es
