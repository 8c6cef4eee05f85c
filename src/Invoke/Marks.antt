-- ===== src/Invoke/Marks.antt =====
-- The events of calls in a log, and the operations that add none.
use mechagnome.Base.{
  ℕ, ◌+◌, String, ◌≡◌, refl, sym, ap, ◌∙◌, inl, inr, Bool, not, ◌||◌, Option, none, some, List, [],
  ◌∷◌, ◌++◌, arith, ◌==◌, nat_eq, string_eq, if◌then◌else◌, Bool-cases,
}
use mechagnome.Base.Rows.{find, update_rows, is_some}
use mechagnome.Outcome.{ok, >>=-eq-ok}
use mechagnome.Schema.{Payload, Event, Db, has_lineage}
use mechagnome.Schema.Insert.{insert_lineage, insert_namespaces, namespace_at}
use mechagnome.Events.Gapless.{append_inv}
use mechagnome.Events.{Refs, event_with, last_seq, append_event_connection}
use mechagnome.Tools.Write.{log_if, lineage_of}
use mechagnome.Tools.Delete.{refers_to, forget_version}

-- The start and the end of a call, with its id.
pub data Mark : Type 0 where
  started : (call_id : Option String) → Mark
  ended : (call_id : Option String) → Mark

abbrev pub mark_of : (kind : String) → (call_id : Option String) → Option Mark
mark_of kind call_id =
    if kind == "call_started"
    then some (started call_id)
    else if kind == "call_succeeded"
    then some (ended call_id)
    else if kind == "call_failed"
    then some (ended call_id)
    else none

abbrev pub listed : Option Mark → List Mark → List Mark
listed none ms = ms
listed (some m) ms = m ∷ ms

unfoldable pub marks : List Event → List Mark
marks [] = []
marks (e ∷ es) = listed (mark_of e.kind e.call_id) (marks es)

listed-append : (o : Option Mark) (ms ns : List Mark) → listed o (ms ++ ns) ≡ listed o ms ++ ns
listed-append none ms ns = refl
listed-append (some m) ms ns = refl

marks-append : (es fs : List Event) → marks (es ++ fs) ≡ marks es ++ marks fs
unfolding marks
marks-append [] fs = refl
marks-append (e ∷ es) fs =
    rw (marks-append es fs) (listed-append (mark_of e.kind e.call_id) (marks es) (marks fs))

-- What an appended event adds.
pub append_event_connection-marks :
    (session kind : String) (payload : Payload) (refs : Refs) (db : Db) (n : ℕ) (db' : Db)
    → append_event_connection session kind payload refs db ≡ ok (n, db')
    → marks db'.events ≡ marks db.events ++ listed (mark_of kind refs.call_id) []
unfolding marks
append_event_connection-marks session kind payload refs db n db' done =
    let (_, same) = append_inv db session kind payload refs n db' done in
    ap (λ (d : Db). marks d.events) same
    ∙ marks-append db.events (event_with session (last_seq db session + 1) kind payload refs ∷ [])

abbrev pub Keeps : Db → Db → Type 0
Keeps a b = marks b.events ≡ marks a.events

pub Keeps-same : (a b : Db) → a ≡ b → Keeps a b
Keeps-same a b same = ap (λ (d : Db). marks d.events) (sym same)

pub append_nil : (ms : List Mark) → ms ++ [] ≡ ms
append_nil [] = refl
append_nil (m ∷ ms) = ap (λ ns. m ∷ ns) (append_nil ms)

pub log_if-Keeps :
    (session : Option String) (kind : String) (payload : Payload) (refs : Refs) (a b : Db)
    → mark_of kind refs.call_id ≡ none
    → log_if session kind payload refs a ≡ ok b
    → Keeps a b
log_if-Keeps none kind payload refs a b other done = Keeps-same a b (ground (arith, done))
log_if-Keeps (some session) kind payload refs a b other done =
    let ((n, c), appended, last) =
      >>=-eq-ok (append_event_connection session kind payload refs a) (λ r. ok r.1) done in
    let same : c ≡ b = ground (arith, last) in
    Keeps-same c b same
    ∙ append_event_connection-marks session kind payload refs a n c appended
    ∙ rw other (append_nil (marks a.events))

pub insert_namespaces-Keeps :
    (a : Db) (lineage : ℕ) (paths : List String) (b : Db)
    → insert_namespaces a lineage paths ≡ ok b
    → Keeps a b
unfolding insert_namespaces
insert_namespaces-Keeps a lineage [] b done = Keeps-same a b (ground (arith, done))
insert_namespaces-Keeps a lineage (p ∷ ps) b done =
    elim (Bool-cases
      (is_some (find (namespace_at lineage p) a.namespaces) || not (has_lineage a lineage))) [
        | inl refused ↦ absurd (ground (arith, rw refused at done))
        | inr fits ↦
            insert_namespaces-Keeps
              (record a {
                namespaces = a.namespaces ++ (record { lineage_id = lineage; path = p } ∷ []);
              })
              lineage ps b (rw fits at done)
      ]

pub lineage_of-Keeps :
    (a : Db) (full : Bool) (target name : String) (i : ℕ) (b : Db)
    → lineage_of a full target name ≡ ok (i, b)
    → b.events ≡ a.events
unfolding lineage_of insert_lineage
lineage_of-Keeps a full target name i b done = ground arith

update-Keeps :
    (i : ℕ) (es : List Event)
    → marks (update_rows (refers_to i) (λ e. record e { tool_version_id = none }) es) ≡ marks es
unfolding marks update_rows
update-Keeps i [] = refl
update-Keeps i (e ∷ es) = elim (Bool-cases (refers_to i e)) [
  | inl mine ↦ rw (mine, update-Keeps i es) refl
  | inr other ↦ rw (other, update-Keeps i es) refl
]

pub forget_version-Keeps : (a : Db) (i : ℕ) → Keeps a (forget_version a i)
unfolding forget_version
forget_version-Keeps a i = update-Keeps i a.events
