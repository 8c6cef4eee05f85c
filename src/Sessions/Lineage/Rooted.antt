-- ===== src/Sessions/Lineage/Rooted.antt =====
-- The walks along the parents of a session end, and they agree on the root.
use mechagnome.Base.{
  ℕ, zero, suc, ◌≤◌, ◌<◌, String, ◌≡◌, refl, ap, ◌⊎◌, inl, inr, true, not, Option, none, some, List,
  [], ◌∷◌, ◌++◌, arith, ◌==◌, nat_eq, string_eq, beq_refl, eq_of_beq, Option-cases,
}
use mechagnome.Base.Rows.{find, length, is_some, find-append}
use mechagnome.Outcome.{ok}
use mechagnome.Schema.{Session, Db, session_with_id, has_session}
use mechagnome.Schema.Insert.{insert_session, null_or}
use mechagnome.Sessions.Lineage.{root_from, root_session_id}

-- A walk of at most `n` sessions from `session` ends at one that has no parent.
abbrev pub Rooted : ℕ → List Session → String → Type 0
Rooted zero rows session = ⊥
Rooted (suc n) rows session =
    (s : Session) × (find (session_with_id session) rows ≡ some s)
    × ((s.parent_session_id ≡ none)
        ⊎ ((p : String) × (s.parent_session_id ≡ some p) × Rooted n rows p))

-- Every session that is there leads to a root, past each other session at most once.
abbrev pub AllRooted : List Session → Type 0
AllRooted rows =
    (session : String)
    → is_some (find (session_with_id session) rows) ≡ true
    → Rooted (length rows) rows session

Rooted-mono :
    (n m : ℕ) (rows : List Session) (session : String)
    → n ≤ m
    → Rooted n rows session
    → Rooted m rows session
Rooted-mono zero m rows session h r = absurd r
Rooted-mono (suc n) zero rows session h r = absurd (omega arith)
Rooted-mono (suc n) (suc m) rows session h (s, found, inl top) = (s, found, inl top)
Rooted-mono (suc n) (suc m) rows session h (s, found, inr (p, e, r)) =
    (s, found, inr (p, e, Rooted-mono n m rows p (omega arith) r))

Rooted-append :
    (n : ℕ) (rows : List Session) (t : Session) (session : String)
    → Rooted n rows session
    → Rooted n (rows ++ (t ∷ [])) session
Rooted-append zero rows t session r = absurd r
Rooted-append (suc n) rows t session (s, found, inl top) =
    (s, rw (find-append (session_with_id session) rows (t ∷ []), found) refl, inl top)
Rooted-append (suc n) rows t session (s, found, inr (p, e, r)) = (
  s,
  rw (find-append (session_with_id session) rows (t ∷ []), found) refl,
  inr (p, e, Rooted-append n rows t p r),
)

length-snoc : (rows : List Session) (t : Session) → length (rows ++ (t ∷ [])) ≡ suc (length rows)
length-snoc [] t = refl
length-snoc (r ∷ rows) t = ap suc (length-snoc rows t)

new-Rooted :
    (rows : List Session) (t : Session)
    → AllRooted rows
    → find (session_with_id t.id) rows ≡ none
    → null_or (λ p. is_some (find (session_with_id p) rows)) t.parent_session_id ≡ true
    → Rooted (suc (length rows)) (rows ++ (t ∷ [])) t.id
unfolding find
new-Rooted rows t all fresh parent = elim (Option-cases t.parent_session_id) [
  | inl top ↦ (t, found, inl top)
  | inr (p, e) ↦ (t, found, inr (p, e, Rooted-append (length rows) rows t p (all p (ground arith))))
]
  where
    found : find (session_with_id t.id) (rows ++ (t ∷ [])) ≡ some t
    found = rw (find-append (session_with_id t.id) rows (t ∷ []), fresh, beq_refl t.id) refl

AllRooted-append :
    (rows : List Session) (t : Session)
    → AllRooted rows
    → find (session_with_id t.id) rows ≡ none
    → null_or (λ p. is_some (find (session_with_id p) rows)) t.parent_session_id ≡ true
    → AllRooted (rows ++ (t ∷ []))
unfolding find
AllRooted-append rows t all fresh parent session there =
    elim (Option-cases (find (session_with_id session) rows)) [
      | inr (s, found) ↦
          Rooted-mono (length rows) (length (rows ++ (t ∷ []))) (rows ++ (t ∷ [])) session
            (omega (arith, length-snoc rows t))
            (Rooted-append (length rows) rows t session (all session (rw found refl)))
      | inl absent ↦
          let mine : (t.id == session) ≡ true =
            ground (arith, find-append (session_with_id session) rows (t ∷ [])) in
          rw (← eq_of_beq t.id session mine, length-snoc rows t)
            (new-Rooted rows t all fresh parent)
    ]

-- A session that does not name itself as its parent has a parent that was there before it.
parent_before :
    (rows : List Session) (t : Session) (o : Option String)
    → null_or (λ p. not (p == t.id)) o ≡ true
    → null_or (λ p. is_some (find (session_with_id p) (rows ++ (t ∷ [])))) o ≡ true
    → null_or (λ p. is_some (find (session_with_id p) rows)) o ≡ true
unfolding find
parent_before rows t none apart there = refl
parent_before rows t (some p) apart there = elim (Option-cases (find (session_with_id p) rows)) [
  | inr (s, found) ↦ ap is_some found
  | inl absent ↦
      let mine : (t.id == p) ≡ true =
        ground (arith, find-append (session_with_id p) rows (t ∷ []), there) in
      absurd (ground (arith, apart, eq_of_beq t.id p mine, beq_refl p))
]

-- Inserting a session that does not name itself as its parent keeps every walk along the parents
-- finite.
pub insert_session-AllRooted :
    (db : Db) (t : Session) (db' : Db)
    → null_or (λ p. not (p == t.id)) t.parent_session_id ≡ true
    → insert_session db t ≡ ok db'
    → AllRooted db.sessions
    → AllRooted db'.sessions
unfolding insert_session
insert_session-AllRooted db t db' apart h all =
    let state : db'.sessions ≡ db.sessions ++ (t ∷ []) = ground arith in
    let fresh : find (session_with_id t.id) db.sessions ≡ none = ground arith in
    rw state (
      AllRooted-append db.sessions t all fresh
        (parent_before db.sessions t t.parent_session_id apart (ground arith)))

walk_top :
    (fuel : ℕ) (rows : List Session) (session : String) (s : Session)
    → 0 < fuel
    → find (session_with_id session) rows ≡ some s
    → s.parent_session_id ≡ none
    → root_from fuel rows session ≡ ok s.id
unfolding root_from
walk_top zero rows session s h found top = absurd (omega arith)
walk_top (suc fuel) rows session s h found top = ground arith

walk_up :
    (n fuel : ℕ) (rows : List Session) (session p root : String) (s : Session)
    → suc n ≤ fuel
    → find (session_with_id session) rows ≡ some s
    → s.parent_session_id ≡ some p
    → ((m : ℕ) → n ≤ m → root_from m rows p ≡ ok root)
    → root_from fuel rows session ≡ ok root
unfolding root_from
walk_up n zero rows session p root s h found up walk = absurd (omega arith)
walk_up n (suc fuel) rows session p root s h found up walk = ground (arith, walk fuel (omega arith))

root_from-Rooted :
    (n : ℕ) (rows : List Session) (session : String)
    → Rooted n rows session
    → (root : String) × ((fuel : ℕ) → n ≤ fuel → root_from fuel rows session ≡ ok root)
unfolding root_from
root_from-Rooted zero rows session r = absurd r
root_from-Rooted (suc n) rows session (s, found, inl top) =
    (s.id, λ fuel h. walk_top fuel rows session s (omega arith) found top)
root_from-Rooted (suc n) rows session (s, found, inr (p, e, r)) =
    let (root, walk) = root_from-Rooted n rows p r in
    (root, λ fuel h. walk_up n fuel rows session p root s h found e walk)

-- In a database whose sessions all lead to a root, the root of a session that is there is found,
-- and a session with a parent has its parent's root.
pub root_session_id-ok :
    (db : Db) (session : String)
    → AllRooted db.sessions
    → has_session db session ≡ true
    → (root : String) × (root_session_id db session ≡ ok root)
      × ((s : Session) (p : String)
          → find (session_with_id session) db.sessions ≡ some s
          → s.parent_session_id ≡ some p
          → root_session_id db p ≡ ok root)
unfolding root_session_id
root_session_id-ok db session all there = go (length db.sessions) refl (all session there)
  where
    go :
        (n : ℕ)
        → length db.sessions ≡ n
        → Rooted n db.sessions session
        → (root : String) × (root_session_id db session ≡ ok root)
          × ((s : Session) (p : String)
              → find (session_with_id session) db.sessions ≡ some s
              → s.parent_session_id ≡ some p
              → root_session_id db p ≡ ok root)
    go zero e r = absurd r
    go (suc n) e (s, found, inl top) = (
      s.id,
      walk_top (suc (length db.sessions)) db.sessions session s (omega arith) found top,
      λ t p found' up. absurd (ground arith),
    )
    go (suc n) e (s, found, inr (q, up, r)) =
        let (root, walk) = root_from-Rooted n db.sessions q r in
        (
          root,
          walk_up n (suc (length db.sessions)) db.sessions session q root s (omega arith) found up
              walk,
          λ t p found' up'.
              let same : p ≡ q = ground arith in
              rw same (walk (suc (length db.sessions)) (omega arith)),
        )

-- Where all sessions lead to a root, the walks to the root end for a session with a parent and for
-- its parent, with the same root.
pub root_session_id-parent :
    (db : Db) (session parent : String) (s : Session)
    → AllRooted db.sessions
    → find (session_with_id session) db.sessions ≡ some s
    → s.parent_session_id ≡ some parent
    → (root : String) × (root_session_id db session ≡ ok root)
      × (root_session_id db parent ≡ ok root)
root_session_id-parent db session parent s all found up =
    let (root, mine, above) = root_session_id-ok db session all (ap is_some found) in
    (root, mine, above s parent found up)
