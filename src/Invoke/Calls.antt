-- ===== src/Invoke/Calls.antt =====
-- A call, with its own events, and the whole of a call tree.
use mechagnome.Base.{
  ℕ, zero, suc, ◌-◌, ◌≤◌, ◌<◌, String, ◌≡◌, refl, ap, ◌∙◌, ◌⊎◌, inl, inr, Bool, true, false, Option,
  some, [], ◌∷◌, ◌++◌, arith, ltb, leb, nat_eq, string_eq, Bool-cases, Option-cases,
}
use mechagnome.Outcome.{Error, Result, then_run, ok, err, Result-cases, is_cancelled, not_json}
use mechagnome.Schema.{Payload}
use mechagnome.Schema.Host.{Json, Fields, Kernel}
use mechagnome.Events.{Refs, append_event, append_event_connection}
use mechagnome.Sessions.Create.{Scope}
use mechagnome.Tools.Resolve.{ResolvedTool, resolve_in}
use mechagnome.Invoke.Program.{Runtime, Invocation, Context}
use mechagnome.Invoke.Capability.{Invoker, run_program}
use mechagnome.Invoke.Call.{
  log, settle, run_tool, begin, invoke, check_args, check_result, call_refs, slot_of, program_of,
}
use mechagnome.Invoke.Marks.{started, ended, marks, mark_of, listed, append_event_connection-marks}
use mechagnome.Invoke.Trail.{
  nil, call, marks_of, height, size, end_of, append_nil, append_assoc, Trail, Trail-quiet,
}
use mechagnome.Invoke.Nested.{run_program-Trail}

module _ (k : Kernel) (run : Runtime) (scope : Scope) where
  -- An event is appended, or the state is as it was.
  pub log-cases :
      (kind : String) (fields : Fields) (refs : Refs) (s : Invocation)
      → ((e : Error) × (log k run scope kind fields refs s ≡ (err e, s)))
        ⊎ ((n : ℕ) × (s' : Invocation) × (log k run scope kind fields refs s ≡ (ok n, s'))
            × (s'.calls ≡ s.calls)
            × (marks s'.db.events ≡ marks s.db.events ++ listed (mark_of kind refs.call_id) []))
  unfolding append_event
  log-cases kind fields refs s = elim (Option-cases (k.dumps (Json.object fields))) [
    | inl refused ↦ inl (not_json, rw refused refl)
    | inr (text, dumped) ↦
        elim (Result-cases
          (append_event_connection scope.session_id kind (Payload.json text) refs s.db)) [
            | inl (e, failed) ↦ inl (e, rw (dumped, failed) refl)
            | inr ((n, db'), appended) ↦ inr (
              n,
              record s { db = db' },
              rw (dumped, appended) refl,
              refl,
              append_event_connection-marks scope.session_id kind (Payload.json text) refs s.db n
                  db' appended,
            )
          ]
  ]

  abbrev Ends : String → Invocation → Invocation → Type 0
  Ends c s s' =
      (closed : Bool) × (marks s'.db.events ≡ marks s.db.events ++ end_of closed c [])
      × (s'.calls ≡ s.calls)

  unlogged : (c : String) (s : Invocation) → Ends c s s
  unlogged c s = (false, append_nil (marks s.db.events), refl)

  -- The end of a call is logged, or the log is as it was.
  ending-marks :
      (kind : String) (fields : Fields) (refs : Refs) (c : String) (r : Result Json)
      (s : Invocation)
      → mark_of kind refs.call_id ≡ some (ended (some c))
      → Ends c s (then_run (log k run scope kind fields refs s) (λ _ s'. (r, s'))).1
  ending-marks kind fields refs c r s own = elim (log-cases kind fields refs s) [
    | inl (e, failed) ↦ rw failed (unlogged c s)
    | inr (n, s', logged, same, grown) ↦ rw logged (true, grown ∙ rw own refl, same)
  ]

  settle-marks :
      (n : ℕ) (refs : Refs) (c : String) (r : Result Json) (s : Invocation)
      → refs.call_id ≡ some c
      → Ends c s (settle k run scope n refs r s).1
  unfolding settle
  settle-marks n refs c (ok value) s own =
      ending-marks "call_succeeded" _ refs c (ok value) s (rw own refl)
  settle-marks n refs c (err e) s own = elim (Bool-cases (is_cancelled e)) [
    | inl gone ↦ rw (settle, gone) (unlogged c s)
    | inr caught ↦ rw (settle, caught) (ending-marks "call_failed" _ refs c (err e) s (rw own refl))
  ]

  -- A started call, what ran within it, and its end.
  framed :
      (cap h : ℕ) (c : String) (s s₁ s₂ s₃ : Invocation)
      → s.calls < cap
      → s₁.calls ≡ suc s.calls
      → marks s₁.db.events ≡ marks s.db.events ++ (started (some c) ∷ [])
      → Trail cap h s₁ s₂
      → Ends c s₂ s₃
      → Trail cap (suc h) s s₃
  unfolding marks_of height size
  framed cap h c s s₁ s₂ s₃ free next begun t (closed, ended', same) = record {
    forest = call c closed t.forest nil;
    logged =
        ended'
        ∙ ap (λ l. l ++ end_of closed c []) (t.logged ∙ ap (λ l. l ++ marks_of t.forest) begun)
        ∙ append_assoc (marks s.db.events ++ (started (some c) ∷ [])) (marks_of t.forest)
            (end_of closed c [])
        ∙ append_assoc (marks s.db.events) (started (some c) ∷ [])
            (marks_of t.forest ++ end_of closed c []);
    low = omega (arith, t.low);
    counted = omega (arith, t.counted, next, same);
    capped = omega (arith, t.capped, next, same);
  }

  -- A call that is counted, with nothing logged.
  counted_only :
      (h : ℕ) (s s' : Invocation)
      → s.calls < k.max_calls
      → s'.calls ≡ suc s.calls
      → marks s'.db.events ≡ marks s.db.events
      → Trail k.max_calls h s s'
  unfolding marks_of height size
  counted_only h s s' free next same = record {
    forest = nil;
    logged = same ∙ append_nil (marks s.db.events);
    low = omega arith;
    counted = omega (arith, next);
    capped = omega (arith, next);
  }

  -- What the body of a tool may call, at one level.
  abbrev pub Below : ℕ → Invoker → Type 0
  Below h invoker =
      (name : String) (args : Json) (parent : Option String) (version : Option ℕ) (s : Invocation)
      → Trail k.max_calls h s (invoker name args parent version s).1

  module _ (h : ℕ) (invoker : Invoker) (below : Below h invoker) (depth : ℕ) (args : Json)
      (parent : Option String) (s : Invocation) (free : s.calls < k.max_calls) where
    counting : Invocation
    counting = record s { calls = suc s.calls }

    run_tool-Trail :
        (tool : ResolvedTool)
        → Trail k.max_calls
            (suc h)
            s
            (run_tool k run scope invoker depth s.calls tool args parent
              (record s { calls = suc s.calls })).1
    unfolding run_tool
    run_tool-Trail tool =
        let s' : Invocation = record s { calls = suc s.calls } in
        let refs = call_refs tool (run.call_id s.calls) parent in
        let ctx : Context = record {
          call_id = run.call_id s.calls;
          depth = depth;
          logical_slot = slot_of tool.name;
        } in
        elim (log-cases "call_started" (Fields.field "args" args Fields.end) refs s') [
          | inl (e, failed) ↦ rw (run_tool, failed) (counted_only (suc h) s s' free refl refl)
          | inr (n, s₁, logged, same, grown) ↦
              let p = program_of (run.load tool.source) args in
              let (result, s₂) = run_program k run scope invoker ctx p s₁ in
              rw (run_tool, logged)
                (framed k.max_calls h (run.call_id s.calls) s s₁ s₂ _ free same grown
                  (run_program-Trail k run scope h invoker ctx below p s₁)
                  (settle-marks s.calls refs (run.call_id s.calls) (check_result k run scope result)
                    s₂ refl))
        ]

    begin-Trail :
        (name : String) (version : Option ℕ)
        → Trail k.max_calls (suc h) s (begin k run scope invoker depth name args parent version s).1
    unfolding begin
    begin-Trail name version =
        elim (Result-cases (resolve_in s.db name version scope.toolbox_ids)) [
          | inl (e, unknown) ↦
              rw (begin, unknown)
                (counted_only (suc h) s (record s { calls = suc s.calls }) free refl refl)
          | inr (tool, found) ↦ rw (begin, found) (run_tool-Trail tool)
        ]

  refused : (h : ℕ) (s : Invocation) → Trail k.max_calls h s s
  refused h s = Trail-quiet k.max_calls h s s refl refl

  -- For tools whose calls follow one another, an invocation adds to the log the marks of a forest of
  -- nested calls, at most as high as the depth left, with at most as many calls as were counted, and
  -- the count stays within `max_calls`.
  pub invoke-Trail :
      (fuel depth : ℕ) (name : String) (args : Json) (parent : Option String) (version : Option ℕ)
      (s : Invocation)
      → Trail k.max_calls
          (suc k.max_depth - depth)
          s
          (invoke k run scope fuel depth name args parent version s).1
  unfolding invoke
  invoke-Trail zero depth name args parent version s = refused (suc k.max_depth - depth) s
  invoke-Trail (suc fuel) depth name args parent version s =
      elim (Result-cases (check_args k run scope args)) [
        | inl (e, bad) ↦ rw (invoke, bad) (refused (suc k.max_depth - depth) s)
        | inr (_, good) ↦ elim (Bool-cases (ltb k.max_depth depth)) [
          | inl deep ↦ rw (invoke, good, deep) (refused (suc k.max_depth - depth) s)
          | inr fits ↦ elim (Bool-cases (leb k.max_calls s.calls)) [
            | inl full ↦ rw (invoke, good, fits, full) (refused (suc k.max_depth - depth) s)
            | inr free ↦
                let within : depth ≤ k.max_depth = ground arith in
                let level : suc k.max_depth - depth ≡ suc (suc k.max_depth - suc depth) =
                  omega (arith, within) in
                rw (invoke, good, fits, free, level)
                  (begin-Trail (suc k.max_depth - suc depth) (invoke k run scope fuel (suc depth))
                    (invoke-Trail fuel (suc depth)) depth args parent s (ground arith) name version)
          ]
        ]
      ]
