-- ===== src/Invoke/Bounds.antt =====
-- How many calls one invocation starts and ends.
use mechagnome.Base.{
  ℕ, suc, ◌+◌, ◌≤◌, String, ◌≡◌, refl, ap, ◌∙◌, Bool, true, false, Option, List, [], ◌∷◌, ◌++◌,
  arith,
}
use mechagnome.Schema.Host.{Json, Kernel}
use mechagnome.Sessions.Create.{Scope}
use mechagnome.Invoke.Program.{Runtime, Invocation}
use mechagnome.Invoke.Call.{invoke}
use mechagnome.Invoke.Marks.{Mark, started, ended, marks}
use mechagnome.Invoke.Trail.{Forest, nil, call, marks_of, size, end_of}
use mechagnome.Invoke.Calls.{invoke-Trail}

-- The calls that a log says have started, and the ones that it says have ended.
unfoldable pub starts : List Mark → ℕ
starts [] = 0
starts (started c ∷ ms) = suc (starts ms)
starts (ended c ∷ ms) = starts ms

unfoldable pub ends : List Mark → ℕ
ends [] = 0
ends (started c ∷ ms) = ends ms
ends (ended c ∷ ms) = suc (ends ms)

starts-append : (ms ns : List Mark) → starts (ms ++ ns) ≡ starts ms + starts ns
unfolding starts
starts-append [] ns = omega arith
starts-append (started c ∷ ms) ns = omega (arith, starts-append ms ns)
starts-append (ended c ∷ ms) ns = starts-append ms ns

ends-append : (ms ns : List Mark) → ends (ms ++ ns) ≡ ends ms + ends ns
unfolding ends
ends-append [] ns = omega arith
ends-append (started c ∷ ms) ns = ends-append ms ns
ends-append (ended c ∷ ms) ns = omega (arith, ends-append ms ns)

starts-end_of :
    (closed : Bool) (c : String) (ms : List Mark) → starts (end_of closed c ms) ≡ starts ms
unfolding starts
starts-end_of true c ms = refl
starts-end_of false c ms = refl

ends-end_of :
    (closed : Bool) (c : String) (ms : List Mark) → ends (end_of closed c ms) ≤ suc (ends ms)
unfolding ends
ends-end_of true c ms = omega arith
ends-end_of false c ms = omega arith

starts-marks_of : (f : Forest) → starts (marks_of f) ≡ size f
unfolding starts marks_of size
starts-marks_of nil = refl
starts-marks_of (call c closed inner rest) = omega (
  arith,
  starts-append (marks_of inner) (end_of closed c (marks_of rest)),
  starts-end_of closed c (marks_of rest),
  starts-marks_of inner,
  starts-marks_of rest,
)

ends-marks_of : (f : Forest) → ends (marks_of f) ≤ size f
unfolding ends marks_of size
ends-marks_of nil = omega arith
ends-marks_of (call c closed inner rest) = omega (
  arith,
  ends-append (marks_of inner) (end_of closed c (marks_of rest)),
  ends-end_of closed c (marks_of rest),
  ends-marks_of inner,
  ends-marks_of rest,
)

-- Whatever the tools do, whatever they write or delete, and however the run ends: an invocation that
-- has made no call yet starts at most `max_calls` calls, and ends at most as many as it starts.
pub invoke-bounds :
    (k : Kernel) (run : Runtime) (scope : Scope) (fuel depth : ℕ) (name : String) (args : Json)
    (parent : Option String) (version : Option ℕ) (s : Invocation)
    → s.calls ≡ 0
    → let before = marks s.db.events in
      let after = marks (invoke k run scope fuel depth name args parent version s).1.db.events in
      (starts after ≤ starts before + k.max_calls)
      × (ends after + starts before ≤ starts after + ends before)
invoke-bounds k run scope fuel depth name args parent version s none_yet =
    let t = invoke-Trail k run scope fuel depth name args parent version s in
    let before = marks s.db.events in
    let grown = marks_of t.forest in
    let started_after = ap starts t.logged ∙ starts-append before grown in
    let ended_after = ap ends t.logged ∙ ends-append before grown in
    (
      omega (arith, started_after, starts-marks_of t.forest, t.counted, t.capped, none_yet),
      omega (arith, started_after, ended_after, starts-marks_of t.forest, ends-marks_of t.forest),
    )
