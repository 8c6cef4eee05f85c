-- ===== src/Tools/Leads.antt =====
-- The toolbox of a scope to which a name leads.
use mechagnome.Base.{
  String, ◌≡◌, refl, sym, ◌⊎◌, inl, inr, true, false, none, some, List, [], ◌∷◌, arith, ◌==◌,
  nat_eq, string_eq, eq_of_beq, Bool-cases, Option-cases,
}
use mechagnome.Outcome.{Error, Result, ok, err}
use mechagnome.Schema.{Db}
use mechagnome.Tools.Resolve.{
  ResolvedTool, Joined, find_version, find_binding, join_binding, bound_in, first_bound,
  wanted_version, resolve_in,
}
use mechagnome.Tools.Write.{fallback_target, target_of}
use mechagnome.Tools.Ownership.{IsWellFormed}

-- The target is the first toolbox of the scope that binds the name, or, if none does, the first.
abbrev pub Leads : Db → String → List String → String → Type 0
Leads db name [] target = ⊥
Leads db name (t ∷ ts) target =
    (t ≡ target) ⊎ ((bound_in db name t ≡ none) × Leads db name ts target)

pub bound_in-owner :
    {db : Db}
    → IsWellFormed db
    → (name toolbox : String) (j : Joined) → bound_in db name toolbox ≡ some j
    → j.lineage.toolbox_id ≡ toolbox
unfolding bound_in
bound_in-owner {db} w name toolbox j h = elim (Option-cases (find_binding db toolbox name)) [
  | inl free ↦ absurd (ground arith)
  | inr (b, found) ↦
      let (k, joined, owner, _) = w.owned toolbox name b found in
      let same : j ≡ k = ground arith in rw same owner
]

pub first_bound-Leads :
    {db : Db}
    → IsWellFormed db
    → (name : String) (ts : List String) (j : Joined) → first_bound db name ts ≡ some j
    → Leads db name ts j.lineage.toolbox_id
unfolding first_bound
first_bound-Leads w name [] j h = absurd (ground arith)
first_bound-Leads {db} w name (t ∷ ts) j h = elim (Option-cases (bound_in db name t)) [
  | inl free ↦ inr (free, first_bound-Leads w name ts j (rw free at h))
  | inr (k, bound) ↦
      let same : k ≡ j = ground arith in inl (sym (bound_in-owner w name t j (rw same at bound)))
]

pub resolve_in-owner :
    (db : Db) (name : String) (ts : List String) (tool : ResolvedTool)
    → resolve_in db name none ts ≡ ok tool
    → (j : Joined) × (first_bound db name ts ≡ some j) × (tool.toolbox_id ≡ j.lineage.toolbox_id)
unfolding resolve_in wanted_version
resolve_in-owner db name ts tool h = elim (Option-cases (first_bound db name ts)) [
  | inl free ↦ absurd (ground arith)
  | inr (j, bound) ↦ (j, bound, ground arith)
]

fresh-Leads :
    (db : Db) (name : String) (scope : List String) (target : String) (x : Error)
    → fallback_target true scope (err x) ≡ ok target
    → Leads db name scope target
fresh-Leads db name [] target x h = absurd (ground arith)
fresh-Leads db name (t ∷ ts) target x h = inl (ground arith)

pub target_of-Leads :
    {db : Db}
    → IsWellFormed db
    → (name : String) (scope : List String) (target : String)
    → target_of db true name none scope ≡ ok target
    → Leads db name scope target
unfolding target_of
target_of-Leads {db} w name scope target h = go (resolve_in db name none scope) refl
  where
    go : (o : Result ResolvedTool) → resolve_in db name none scope ≡ o → Leads db name scope target
    go (ok tool) e =
        let (j, bound, owner) = resolve_in-owner db name scope tool e in
        let here : j.lineage.toolbox_id ≡ target = ground arith in
        rw here at (first_bound-Leads w name scope j bound)
    go (err x) e = fresh-Leads db name scope target x (rw e at h)

pub first_bound-target :
    (db db' : Db) (name target : String) (j : Joined)
    → bound_in db' name target ≡ some j
    → ((t : String) → (target == t) ≡ false → bound_in db' name t ≡ bound_in db name t)
    → (scope : List String) → Leads db name scope target
    → first_bound db' name scope ≡ some j
unfolding first_bound
first_bound-target db db' name target j bound kept [] h = absurd h
first_bound-target db db' name target j bound kept (t ∷ ts) (inl here) = rw (here, bound) refl
first_bound-target db db' name target j bound kept (t ∷ ts) (inr (free, later)) =
    elim (Bool-cases (target == t)) [
      | inl same ↦ rw (← eq_of_beq target t same, bound) refl
      | inr apart ↦
          rw (kept t apart, free) (first_bound-target db db' name target j bound kept ts later)
    ]

pub bound_in-version :
    (db : Db) (name toolbox : String) (j : Joined)
    → bound_in db name toolbox ≡ some j
    → find_version db j.binding.tool_version_id ≡ some j.version
unfolding bound_in join_binding
bound_in-version db name toolbox j h = ground arith
