-- ===== src/Harness/Stops.antt =====
-- src/mechagnome/harness.py, `_RolloutReservation`, `_AgentLaunchBudget` and the reservations of
-- `_AgentCoordinator`; src/mechagnome/model_provider.py, `_ModelCallBudget`. Each method runs under
-- its object's lock, so threads only choose the order of the calls.
use mechagnome.Base.{
  ◌&&◌, ℕ, zero, suc, ◌+◌, ◌-◌, min, String, ◌≡◌, Bool, true, false, not, ◌||◌, Option, none, some,
  List, [], ◌∷◌, arith, ltb, leb, nat_eq, string_eq, if◌then◌else◌,
}
use mechagnome.Base.Rows.{is_some}

pub record Reservation : Type 0 where
  pub graceful : Bool
  pub force : Bool
  pub user_initiated : Bool

abbrev pub reservation : Reservation
reservation = record { graceful = false; force = false; user_initiated = false }

-- `request_graceful`
unfoldable pub request_graceful : Bool → Reservation → Reservation × Bool
request_graceful user r =
    if r.force || r.graceful
    then (r, false)
    else (record r { user_initiated = r.user_initiated || user; graceful = true }, true)

-- `cancel`
unfoldable pub force_cancel : Bool → Reservation → Reservation
force_cancel user r = record r { user_initiated = r.user_initiated || user; force = true }

pub data StopMode : Type 0 where
  forced graceful_stop : StopMode

-- `RunCancelled`
pub record RunCancelled : Type 0 where
  pub mode : StopMode
  pub by_user : Bool
  pub partial_text : String

-- `cancelled_error` and `graceful_error`
unfoldable pub cancelled_error : Reservation → String → RunCancelled
cancelled_error r partial = record {
  mode = forced;
  by_user = r.user_initiated;
  partial_text = partial;
}

unfoldable pub graceful_error : Reservation → RunCancelled
graceful_error r = record { mode = graceful_stop; by_user = r.user_initiated; partial_text = "" }

-- `check`: the exception, if it raises.
unfoldable pub check : Reservation → String → Option RunCancelled
unfolding cancelled_error
check r partial = if r.force then some (cancelled_error r partial) else none

pub data Request : Type 0 where
  graceful_request : (user : Bool) → Request
  cancel_request : (user : Bool) → Request

abbrev pub by_user : Request → Bool
by_user (graceful_request u) = u
by_user (cancel_request u) = u

unfoldable pub respond : Reservation → Request → Reservation
unfolding request_graceful force_cancel
respond r (graceful_request user) = (request_graceful user r).0
respond r (cancel_request user) = force_cancel user r

unfoldable pub respond_all : Reservation → List Request → Reservation
respond_all r [] = r
respond_all r (q ∷ qs) = respond_all (respond r q) qs

abbrev pub is_cancel : Request → Bool
is_cancel (graceful_request u) = false
is_cancel (cancel_request u) = true

abbrev pub any_of : (Request → Bool) → List Request → Bool
any_of p [] = false
any_of p (q ∷ qs) = p q || any_of p qs

force-respond_all :
    (r : Reservation) (qs : List Request)
    → (respond_all r qs).force ≡ (r.force || any_of is_cancel qs)
unfolding respond_all respond
force-respond_all r [] = ground arith
force-respond_all r (graceful_request u ∷ qs) =
    ground (arith, force-respond_all (respond r (graceful_request u)) qs)
force-respond_all r (cancel_request u ∷ qs) =
    ground (arith, force-respond_all (respond r (cancel_request u)) qs)

-- A new rollout is cancelled by force exactly when some request was a cancellation, in whatever
-- order graceful stops and cancellations arrive: then `check` raises, and no further graceful stop
-- is granted.
pub cancelled_iff :
    (qs : List Request) (partial : String) (user : Bool)
    → (is_some (check (respond_all reservation qs) partial) ≡ any_of is_cancel qs)
      × ((any_of is_cancel qs && (request_graceful user (respond_all reservation qs)).1) ≡ false)
unfolding check request_graceful
cancelled_iff qs partial user = (
  ground (arith, force-respond_all reservation qs),
  ground (arith, force-respond_all reservation qs),
)

abbrev pub max_launches : ℕ
max_launches = 64

-- `_AgentLaunchBudget.consume`: the counter, and whether the launch is allowed.
unfoldable pub launch : ℕ → ℕ × Bool
launch launches = if leb max_launches launches then (launches, false) else (launches + 1, true)

abbrev pub max_model_calls : ℕ
max_model_calls = 8

-- `_ModelCallBudget.consume`
unfoldable pub model_call : ℕ → ℕ × Bool
model_call calls = (calls + 1, not (ltb max_model_calls (calls + 1)))

-- How many of `n` uses of a budget are allowed.
unfoldable pub granted : (ℕ → ℕ × Bool) → ℕ → ℕ → ℕ
granted consume zero counter = 0
granted consume (suc n) counter =
    let (counter', ok) = consume counter in
    let rest = granted consume n counter' in (if ok then 1 else 0) + rest

granted-launch : (n c : ℕ) → granted launch n c ≡ min n (max_launches - c)
unfolding granted launch
granted-launch zero c = omega arith
granted-launch (suc n) c = ground (arith, granted-launch n c, granted-launch n (c + 1))

granted-model_call : (n c : ℕ) → granted model_call n c ≡ min n (max_model_calls - c)
unfolding granted model_call
granted-model_call zero c = omega arith
granted-model_call (suc n) c = ground (arith, granted-model_call n (c + 1))

-- However many launches and model calls are tried in one rollout and one call tree, the first 64
-- launches and the first 8 model calls are allowed, and no more.
pub budgets_exact : (n : ℕ) → (granted launch n 0 ≡ min n 64) × (granted model_call n 0 ≡ min n 8)
budgets_exact n = (granted-launch n 0, granted-model_call n 0)
