-- ===== src/Runner/RunTable/Tame.antt =====
-- Changes of the table of runs that wake no run, and the search after them.
use mechagnome.Base.{
  ℕ, ◌<◌, ◌≡◌, refl, sym, ap, ◌∙◌, inl, inr, Bool, true, false, ◌||◌, Option, none, some, List, [],
  ◌∷◌, ◌++◌, arith, ltb, ◌==◌, nat_eq, if◌then◌else◌, Bool-cases, Option-cases, eq_of_beq,
}
use mechagnome.Base.Rows.{
  find, where_rows, delete_rows, length, find-update, find-delete_other, find-delete_self,
}
use mathlib.Core.Option
use mechagnome.Runner.ToolRun.{ToolRun, is_active, request_shutdown}
use mechagnome.Runner.RunTable.{
  Entry, Runs, entry_with, change, shut_down, trim, contains_id, max_retained,
}
use mechagnome.Runner.RunTable.Limits.{Calms, request_shutdown-Calms}

-- The ids of the runs that have ended.
abbrev pub is_listed : Runs → ℕ → Bool
is_listed s i = contains_id s.completed i || contains_id s.finishing i

-- The ids were drawn already, and the runs among the ended ones are not active.
pub record IsSound (s : Runs) : Type 0 where
  pub drawn : (i : ℕ) (e : Entry) → find (entry_with i) s.runs ≡ some e → i < s.next
  pub ended_drawn : (i : ℕ) → is_listed s i ≡ true → i < s.next
  pub over :
      (i : ℕ) (e : Entry)
      → is_listed s i ≡ true
      → find (entry_with i) s.runs ≡ some e
      → is_active e.state.status ≡ false

pub find-change :
    (j i : ℕ) (f : ToolRun → ToolRun) (es : List Entry)
    → find (entry_with j) (change i f es)
      ≡ Option.map
          (λ e. if entry_with i e then record e { state = f e.state } else e)
          (find (entry_with j) es)
find-change j i f es =
    find-update (entry_with j) (entry_with i) (λ e. record e { state = f e.state }) (λ e h. refl) es

-- Every run of the second table was in the first, and had not ended if it has not now.
abbrev pub Tamed : List Entry → List Entry → Type 0
Tamed es es' =
    (j : ℕ) (e : Entry)
    → find (entry_with j) es' ≡ some e
    → (d : Entry) × (find (entry_with j) es ≡ some d)
      × (is_active d.state.status ≡ false → is_active e.state.status ≡ false)

stays_over :
    (f : ToolRun → ToolRun) (t : ToolRun)
    → Calms f
    → is_active t.status ≡ false
    → is_active (f t).status ≡ false
stays_over f t calms over = elim (Bool-cases (is_active (f t).status)) [
  | inr still ↦ still
  | inl woken ↦ absurd (ground (arith, over, calms t woken))
]

pub change-Tamed :
    (i : ℕ) (f : ToolRun → ToolRun) (es : List Entry) → Calms f → Tamed es (change i f es)
change-Tamed i f es calms j e found = elim (Option-cases (find (entry_with j) es)) [
  | inl gone ↦
      let nothing : ◌≡◌ {A = Option Entry} none (some e) =
        sym (find-change j i f es ∙ ap (Option.map _) gone) ∙ found in
      absurd (ground (arith, nothing))
  | inr (d, here) ↦
      let same : ◌≡◌ {A = Option Entry}
          (some (if entry_with i d then record d { state = f d.state } else d)) (some e) =
        sym (find-change j i f es ∙ ap (Option.map _) here) ∙ found in
      (
        d,
        here,
        λ over. elim (Bool-cases (entry_with i d)) [
          | inl mine ↦
              let same' : ◌≡◌ {A = Option Entry} (some (record d { state = f d.state })) (some e) =
                rw mine at same in
              let e' : record d { state = f d.state } ≡ e = ground arith in
              rw (sym e') (stays_over f d.state calms over)
          | inr other ↦
              let same' : ◌≡◌ {A = Option Entry} (some d) (some e) = rw other at same in
              let e' : d ≡ e = ground arith in rw (sym e') over
        ],
      )
]

pub shut_down-Tamed : (es : List Entry) → Tamed es (shut_down es)
unfolding find shut_down
shut_down-Tamed [] j e found = absurd (ground arith)
shut_down-Tamed (x ∷ es) j e found = elim (Bool-cases (entry_with j x)) [
  | inl mine ↦
      let same : ◌≡◌ {A = Option Entry} (some (record x { state = request_shutdown x.state }))
          (some e) =
        rw mine at found in
      let e' : record x { state = request_shutdown x.state } ≡ e = ground arith in
      (
        x,
        rw mine refl,
        λ over. rw (sym e') (stays_over request_shutdown x.state request_shutdown-Calms over),
      )
  | inr other ↦
      let (d, here, calm) = shut_down-Tamed es j e (rw other at found) in (d, rw other here, calm)
]

pub Tamed-IsSound :
    (s : Runs) (es : List Entry) → IsSound s → Tamed s.runs es → IsSound (record s { runs = es })
Tamed-IsSound s es w tame = record {
  drawn = λ i e found. let (d, here, _) = tame i e found in w.drawn i d here;
  ended_drawn = w.ended_drawn;
  over = λ i e gone found. let (d, here, calm) = tame i e found in calm (w.over i d gone here);
}

-- Taking runs out, and shortening the list of ended ones.
pub find-delete_inv :
    (j : ℕ) (q : Entry → Bool) (es : List Entry) (e : Entry)
    → ((x y : Entry) → entry_with j x ≡ true → entry_with j y ≡ true → q x ≡ q y)
    → find (entry_with j) (delete_rows q es) ≡ some e
    → find (entry_with j) es ≡ some e
unfolding find delete_rows where_rows
find-delete_inv j q [] e alike found = found
find-delete_inv j q (x ∷ es) e alike found = elim (Bool-cases (q x)) [
  | inr kept ↦ elim (Bool-cases (entry_with j x)) [
    | inl mine ↦ ground (arith, found, kept, mine)
    | inr other ↦ ground (arith, found, kept, other, find-delete_inv j q es e alike)
  ]
  | inl out ↦ elim (Bool-cases (entry_with j x)) [
    | inr other ↦ ground (arith, found, out, other, find-delete_inv j q es e alike)
    | inl mine ↦ absurd (
        ground (
          arith,
          rw out at found,
          find-delete_self (entry_with j) q (λ y at_j. alike y x at_j mine ∙ out) es,
        ))
  ]
]

pub same_id :
    (i j : ℕ) (x y : Entry)
    → entry_with j x ≡ true
    → entry_with j y ≡ true
    → entry_with i x ≡ entry_with i y
same_id i j x y hx hy = ap (λ n. n == i) (eq_of_beq x.run_id j hx ∙ sym (eq_of_beq y.run_id j hy))

pub trim-inv :
    (is : List ℕ) (es : List Entry)
    → ((j : ℕ) → contains_id (trim is es).0 j ≡ true → contains_id is j ≡ true)
      × ((j : ℕ) (e : Entry)
          → find (entry_with j) (trim is es).1 ≡ some e
          → find (entry_with j) es ≡ some e)
unfolding trim
trim-inv [] es = (λ j h. h, λ j e h. h)
trim-inv (i ∷ is) es = elim (Bool-cases (ltb max_retained (length (i ∷ is)))) [
  | inr few ↦ rw few (λ j h. h, λ j e h. h)
  | inl many ↦
      let (ids, found) = trim-inv is (delete_rows (entry_with i) es) in
      rw many (
        λ j h. ground (arith, ids j h),
        λ j e h. find-delete_inv j (entry_with i) es e (same_id i j) (found j e h),
      )
]

-- A run that is not among the ended ones is not taken out.
pub trim-keeps :
    (is : List ℕ) (es : List Entry) (j : ℕ)
    → contains_id is j ≡ false
    → find (entry_with j) (trim is es).1 ≡ find (entry_with j) es
unfolding trim
trim-keeps [] es j apart = refl
trim-keeps (i ∷ is) es j apart = elim (Bool-cases (ltb max_retained (length (i ∷ is)))) [
  | inr few ↦ rw few refl
  | inl many ↦
      let apart' : contains_id is j ≡ false = ground (arith, apart) in
      let other : (i == j) ≡ false = ground (arith, apart) in
      rw many (
        trim-keeps is (delete_rows (entry_with i) es) j apart'
        ∙ find-delete_other (entry_with j) (entry_with i)
            (λ x mine. let at_i = eq_of_beq x.run_id i mine in rw at_i other) es)
]

pub contains_id-append :
    (is : List ℕ) (i j : ℕ) → contains_id (is ++ (i ∷ [])) j ≡ (contains_id is j || i == j)
contains_id-append [] i j = ground arith
contains_id-append (x ∷ is) i j = ground (arith, contains_id-append is i j)

pub contains_id-where :
    (p : ℕ → Bool) (is : List ℕ) (j : ℕ)
    → contains_id (where_rows p is) j ≡ true
    → contains_id is j ≡ true
unfolding where_rows
contains_id-where p [] j h = h
contains_id-where p (x ∷ is) j h = ground (arith, h, contains_id-where p is j)
