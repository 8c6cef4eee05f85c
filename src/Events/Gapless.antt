-- ===== src/Events/Gapless.antt =====
-- The sequence numbers of a session: `append_event` keeps them 1, 2, 3, ... without a gap.
use mechagnome.Base.{
  ℕ, suc, ◌+◌, max, String, ◌≡◌, refl, ap, ◌∙◌, inl, inr, true, ◌&&◌, none, List, [], ◌∷◌, ◌++◌,
  arith, ◌==◌, nat_eq, string_eq, eq_of_beq, if◌then◌else◌, Bool-cases,
}
use mechagnome.Base.Rows.{
  find, where_rows, max_of, length, find_above_max_of, where_rows-append, find-where_rows,
}
use mechagnome.Outcome.{ok}
use mechagnome.Schema.{
  Payload, Event, Db, event_of, has_toolbox, has_session, has_version, events_of,
}
use mechagnome.Schema.Insert.{insert_event, null_or}
use mathlib.Core.List.{append-nil}
use mechagnome.Events.{Refs, seq_of, event_with, last_seq, append_event_connection}

abbrev pub Numbered : ℕ → List Event → Type 0
Numbered n [] = Unit {0}
Numbered n (e ∷ es) = (e.seq ≡ n) × Numbered (suc n) es

abbrev pub Gapless : Db → Type 0
Gapless db = (session : String) → Numbered 1 (events_of db session)

pub Numbered-append :
    (n : ℕ) (xs : List Event) (e : Event)
    → Numbered n xs
    → e.seq ≡ n + length xs
    → Numbered n (xs ++ (e ∷ []))
Numbered-append n [] e h p = (omega arith, tt)
Numbered-append n (x ∷ xs) e h p = (h.0, Numbered-append (suc n) xs e h.1 (omega arith))

pub max_of-Numbered :
    (n : ℕ) (xs : List Event) → Numbered (suc n) xs → max n (max_of seq_of xs) ≡ n + length xs
unfolding max_of
max_of-Numbered n [] h = omega arith
max_of-Numbered n (x ∷ xs) h = omega (arith, max_of-Numbered (suc n) xs h.1, h.0)

module _ (db : Db) (session kind : String) (payload : Payload) (refs : Refs) where
  abbrev appended : Event
  appended = event_with session (last_seq db session + 1) kind payload refs

  -- An append to a session that is there succeeds, with references to a toolbox and a version that
  -- are there or none: the constraint UNIQUE(session_id, seq) never fails it.
  pub append-ok :
      has_session db session ≡ true
      → null_or (has_toolbox db) refs.toolbox_id ≡ true
      → null_or (has_version db) refs.tool_version_id ≡ true
      → append_event_connection session kind payload refs db
        ≡ ok (last_seq db session + 1, record db { events = db.events ++ (appended ∷ []) })
  unfolding append_event_connection insert_event last_seq
  append-ok s t v =
      let fresh : find (λ (o : Event). o.session_id == session && o.seq == last_seq db session + 1)
            db.events
          ≡ none =
        find-where_rows (event_of session) (λ o. o.seq == last_seq db session + 1) db.events
        ∙ find_above_max_of (λ o. o.seq == last_seq db session + 1) seq_of (last_seq db session + 1)
            (λ o h. ground arith) (events_of db session) (omega arith) in
      rw (fresh, s, t, v) refl

  -- A successful append is this one, whichever constraints it met.
  pub append_inv :
      (n : ℕ) (db' : Db)
      → append_event_connection session kind payload refs db ≡ ok (n, db')
      → (n ≡ last_seq db session + 1) × (db' ≡ record db { events = db.events ++ (appended ∷ []) })
  unfolding append_event_connection insert_event
  append_inv n db' h = (ground arith, ground arith)

  pub last_seq-Gapless : Gapless db → last_seq db session ≡ length (events_of db session)
  unfolding last_seq
  last_seq-Gapless g = omega (arith, max_of-Numbered 0 (events_of db session) (g session))

  events_of-append :
      (other : String)
      → where_rows (event_of other) (db.events ++ (appended ∷ []))
        ≡ (if session == other then events_of db other ++ (appended ∷ []) else events_of db other)
  unfolding where_rows
  events_of-append other =
      where_rows-append (event_of other) db.events (appended ∷ [])
      ∙ ground (arith, append-nil (events_of db other))

  appended-Gapless : Gapless db → Gapless (record db { events = db.events ++ (appended ∷ []) })
  appended-Gapless g other = elim (Bool-cases (session == other)) [
    | inl e ↦
        rw (events_of-append other, e)
          (Numbered-append 1 (events_of db other) appended (g other) (
            omega (
              arith,
              last_seq-Gapless g,
              ap (λ (s : String). length (events_of db s)) (eq_of_beq session other e),
            )))
    | inr e ↦ rw (events_of-append other, e) (g other)
  ]

  -- An append keeps every session's sequence numbers gapless, and the number that it returns is
  -- one more than the count of the session's events so far.
  pub append-Gapless :
      (n : ℕ) (db' : Db)
      → append_event_connection session kind payload refs db ≡ ok (n, db')
      → Gapless db
      → Gapless db' × (n ≡ length (events_of db session) + 1)
  append-Gapless n db' h g =
      let (number, state) = append_inv n db' h in
      (rw state (appended-Gapless g), omega (arith, number, last_seq-Gapless g))
