-- ===== src/Harness/Sink.antt =====
-- src/mechagnome/harness.py, `_OrderedEventSink`. The events that reach the inner sink are the output.
pub mod Order
pub mod Delivery
use mechagnome.Base.{
  ◌⊎◌, sym, ap, ◌∙◌, eq_of_beq, ℕ, zero, suc, ◌≤◌, ◌<◌, String, ◌≡◌, refl, inl, inr, Bool, true,
  Option, none, some, List, [], ◌∷◌, ◌++◌, map, arith, ltb, ◌==◌, nat_eq, string_eq, if◌then◌else◌,
  Bool-cases, Option-cases,
}
use mechagnome.Base.Rows.{
  is_some, find-delete_other, length, find, find_sound, where_rows, delete_rows,
}

-- `AgentEvent`, by its sequence number and the rest.
pub record AgentEvent : Type 0 where
  pub seq : Option ℕ
  pub body : String

-- An event with a number, as `_pending` holds it.
pub record Pending : Type 0 where
  pub seq : ℕ
  pub body : String

pub record Sink : Type 0 where
  pub next_sequence : ℕ
  pub pending : List Pending

abbrev pub at_seq : ℕ → Pending → Bool
at_seq n p = p.seq == n

-- `_pending[event.seq] = event`
unfoldable pub put_pending : Pending → List Pending → List Pending
put_pending p ps = p ∷ delete_rows (at_seq p.seq) ps

-- The loop `while self._next_sequence in self._pending`, on fuel.
unfoldable pub drain : ℕ → Sink → List Pending × Sink
drain zero s = ([], s)
drain (suc fuel) s = elim (find (at_seq s.next_sequence) s.pending) [
  | none ↦ ([], s)
  | some p ↦
      let (out, s') = drain fuel (record {
        next_sequence = suc s.next_sequence;
        pending = delete_rows (at_seq s.next_sequence) s.pending;
      }) in
      (p ∷ out, s')
]

abbrev pub numbered : ℕ → String → AgentEvent
numbered n body = record { seq = some n; body = body }

abbrev pub event_of_pending : Pending → AgentEvent
event_of_pending p = numbered p.seq p.body

-- `__call__` for an event with a number. Each round of the loop takes one event out.
unfoldable pub accept : Sink → Pending → List Pending × Sink
unfolding put_pending drain
accept s p =
    if ltb p.seq s.next_sequence
    then ([], s)
    else drain (suc (length (put_pending p s.pending)))
        (record s { pending = put_pending p s.pending })

-- `_OrderedEventSink.__call__`: what reaches the inner sink.
unfoldable pub call : Sink → AgentEvent → List AgentEvent × Sink
unfolding accept
call s e = elim e.seq [
  | none ↦ (e ∷ [], s)
  | some n ↦
      let (out, s') = accept s (record { seq = n; body = e.body }) in (map event_of_pending out, s')
]

-- The numbered events that a series of arrivals lets out.
unfoldable pub accept_all : Sink → List Pending → List Pending × Sink
accept_all s [] = ([], s)
accept_all s (p ∷ ps) =
    let (out, s') = accept s p in let (rest, s'') = accept_all s' ps in (out ++ rest, s'')
