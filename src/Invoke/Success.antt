-- ===== src/Invoke/Success.antt =====
-- A call that returns has logged its start and its end.
use mechagnome.Base.{
  ℕ, zero, suc, ◌-◌, String, ◌≡◌, refl, sym, ap, ◌∙◌, inl, inr, true, Option, some, [], ◌∷◌, ◌++◌,
  arith, ltb, leb, nat_eq, string_eq, Bool-cases,
}
use mechagnome.Base.Rows.{is_some}
use mechagnome.Outcome.{Result, ok, err, Result-cases, is_cancelled}
use mechagnome.Schema.Host.{Json, Fields, Kernel}
use mechagnome.Events.{Refs}
use mechagnome.Sessions.Create.{Scope}
use mechagnome.Tools.Resolve.{ResolvedTool, resolve_in}
use mechagnome.Invoke.Program.{Runtime, Invocation, Context}
use mechagnome.Invoke.Capability.{Invoker, run_program}
use mechagnome.Invoke.Call.{
  settle, run_tool, begin, invoke, check_args, check_result, call_refs, slot_of, program_of,
  details_of,
}
use mechagnome.Invoke.Marks.{started, ended, marks}
use mechagnome.Invoke.Trail.{Forest, nil, call, marks_of, append_assoc}
use mechagnome.Invoke.Nested.{run_program-Trail}
use mechagnome.Invoke.Calls.{Below, log-cases, invoke-Trail}

module _ (k : Kernel) (run : Runtime) (scope : Scope) where
  settle-ok :
      (n : ℕ) (refs : Refs) (c : String) (r : Result Json) (s : Invocation) (v : Json)
      (s' : Invocation)
      → refs.call_id ≡ some c
      → settle k run scope n refs r s ≡ (ok v, s')
      → (r ≡ ok v) × (marks s'.db.events ≡ marks s.db.events ++ (ended (some c) ∷ []))
  unfolding settle
  settle-ok n refs c (ok w) s v s' own done =
      let fields =
        Fields.field "duration_ms" (Json.number (run.elapsed n))
          (Fields.field "result" w Fields.end) in
      elim (log-cases k run scope "call_succeeded" fields refs s) [
        | inl (e, failed) ↦ absurd (ground (arith, rw failed at done))
        | inr (m, s₁, logged, same, grown) ↦
            let done' : (ok w, s₁) ≡ (ok v, s') = rw logged at done in
            (
              ap (λ x. x.0) done',
              ap (λ (x : Result Json × Invocation). marks x.1.db.events) (sym done')
                  ∙ grown
                  ∙ rw own refl,
            )
      ]
  settle-ok n refs c (err e) s v s' own done = elim (Bool-cases (is_cancelled e)) [
    | inl gone ↦ absurd (ground (arith, rw (settle, gone) at done))
    | inr caught ↦
        let fields =
          Fields.field "duration_ms" (Json.number (run.elapsed n)) (details_of k run scope e) in
        elim (log-cases k run scope "call_failed" fields refs s) [
          | inl (e', failed) ↦ absurd (ground (arith, rw (settle, caught, failed) at done))
          | inr (m, s₁, logged, same, grown) ↦
              absurd (ground (arith, rw (settle, caught, logged) at done))
        ]
  ]

  check_result-ok :
      (r : Result Json) (v : Json) → check_result k run scope r ≡ ok v → is_some (k.dumps v) ≡ true
  unfolding check_result
  check_result-ok (err e) v done = absurd (ground arith)
  check_result-ok (ok w) v done = ground arith

  -- What a call that returned `v` has logged.
  abbrev pub Returned : Invocation → Invocation → Json → Type 0
  Returned s s' v =
      (inner : Forest) × (marks s'.db.events
        ≡ marks s.db.events ++ marks_of (call (run.call_id s.calls) true inner nil))
      × (is_some (k.dumps v) ≡ true)

  module _ (h : ℕ) (invoker : Invoker) (below : Below k run scope h invoker) (depth : ℕ)
      (args : Json) (parent : Option String) (s : Invocation) (v : Json) (s' : Invocation) where
    run_tool-ok :
        (tool : ResolvedTool)
        → run_tool k run scope invoker depth s.calls tool args parent
            (record s { calls = suc s.calls })
          ≡ (ok v, s')
        → Returned s s' v
    unfolding run_tool marks_of
    run_tool-ok tool done =
        let s₀ : Invocation = record s { calls = suc s.calls } in
        let c = run.call_id s.calls in
        let refs = call_refs tool c parent in
        let ctx : Context = record {
          call_id = c;
          depth = depth;
          logical_slot = slot_of tool.name;
        } in
        elim (log-cases k run scope "call_started" (Fields.field "args" args Fields.end) refs s₀) [
          | inl (e, failed) ↦ absurd (ground (arith, rw (run_tool, failed) at done))
          | inr (n, s₁, logged, same, grown) ↦
              let p = program_of (run.load tool.source) args in
              let (result, s₂) = run_program k run scope invoker ctx p s₁ in
              let t = run_program-Trail k run scope h invoker ctx below p s₁ in
              let (checked, ended') =
                settle-ok s.calls refs c (check_result k run scope result) s₂ v s' refl
                  (rw (run_tool, logged) at done) in
              (
                t.forest,
                ended'
                    ∙ ap (λ l. l ++ (ended (some c) ∷ []))
                        (t.logged ∙ ap (λ l. l ++ marks_of t.forest) grown)
                    ∙ append_assoc (marks s.db.events ++ (started (some c) ∷ []))
                        (marks_of t.forest) (ended (some c) ∷ [])
                    ∙ append_assoc (marks s.db.events) (started (some c) ∷ [])
                        (marks_of t.forest ++ (ended (some c) ∷ [])),
                check_result-ok result v checked,
              )
        ]

    begin-ok :
        (name : String) (version : Option ℕ)
        → begin k run scope invoker depth name args parent version s ≡ (ok v, s')
        → Returned s s' v
    unfolding begin
    begin-ok name version done =
        elim (Result-cases (resolve_in s.db name version scope.toolbox_ids)) [
          | inl (e, unknown) ↦ absurd (ground (arith, rw (begin, unknown) at done))
          | inr (tool, found) ↦ run_tool-ok tool (rw (begin, found) at done)
        ]

  -- An invocation that returns a value has logged one call, under the id drawn for it: its start, the
  -- calls within it, and then its end; and the value has a JSON text.
  pub invoke-ok :
      (fuel depth : ℕ) (name : String) (args : Json) (parent : Option String) (version : Option ℕ)
      (s : Invocation) (v : Json) (s' : Invocation)
      → invoke k run scope fuel depth name args parent version s ≡ (ok v, s')
      → Returned s s' v
  unfolding invoke
  invoke-ok zero depth name args parent version s v s' done = absurd (ground arith)
  invoke-ok (suc fuel) depth name args parent version s v s' done =
      elim (Result-cases (check_args k run scope args)) [
        | inl (e, bad) ↦ absurd (ground (arith, rw (invoke, bad) at done))
        | inr (_, good) ↦ elim (Bool-cases (ltb k.max_depth depth)) [
          | inl deep ↦ absurd (ground (arith, rw (invoke, good, deep) at done))
          | inr fits ↦ elim (Bool-cases (leb k.max_calls s.calls)) [
            | inl full ↦ absurd (ground (arith, rw (invoke, good, fits, full) at done))
            | inr free ↦
                begin-ok (suc k.max_depth - suc depth) (invoke k run scope fuel (suc depth))
                  (invoke-Trail k run scope fuel (suc depth)) depth args parent s v s' name version
                  (rw (invoke, good, fits, free) at done)
          ]
        ]
      ]
