-- ===== src/Invoke/Fuel.antt =====
-- The depth limit ends the recursion of `_invoke_async`.
use mechagnome.Base.{
  ℕ, zero, suc, ◌+◌, ◌≤◌, ◌<◌, String, ◌≡◌, refl, inl, inr, Option, arith, ltb, Bool-cases,
}
use mechagnome.Outcome.{Result-cases}
use mechagnome.Schema.Host.{Json, Kernel}
use mechagnome.Sessions.Create.{Scope}
use mechagnome.Invoke.Program.{Runtime, Invocation}
use mechagnome.Invoke.Call.{invoke, check_args}

module _ (k : Kernel) (run : Runtime) (scope : Scope) where
  -- A call at depth `depth` needs one unit of fuel for each level left, and one for the refusal: with
  -- that much, more fuel changes neither the result nor the state.
  pub invoke-fuel :
      (fuel more depth : ℕ) (name : String) (args : Json) (parent : Option String)
      (version : Option ℕ) (s : Invocation)
      → suc k.max_depth < fuel + depth
      → 0 < fuel
      → invoke k run scope (fuel + more) depth name args parent version s
        ≡ invoke k run scope fuel depth name args parent version s
  unfolding invoke
  invoke-fuel zero more depth name args parent version s enough some_fuel = absurd (omega arith)
  invoke-fuel (suc fuel) more depth name args parent version s enough some_fuel =
      let next : suc fuel + more ≡ suc (fuel + more) = omega arith in
      elim (Result-cases (check_args k run scope args)) [
        | inl (e, bad) ↦ rw (next, invoke, bad) refl
        | inr (_, good) ↦ elim (Bool-cases (ltb k.max_depth depth)) [
          | inl deep ↦ rw (next, invoke, good, deep) refl
          | inr fits ↦
              let within : depth ≤ k.max_depth = ground arith in
              let same : invoke k run scope (fuel + more) (suc depth)
                  ≡ invoke k run scope fuel (suc depth) =
                λ i name args parent version s.
                  invoke-fuel fuel more (suc depth) name args parent version s (omega arith)
                    (omega (arith, within)) i in
              rw (next, invoke, good, fits, same) refl
        ]
      ]
