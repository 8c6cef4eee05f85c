-- ===== src/Harness/Replay/Settled.antt =====
-- What a stopped prompt leaves in the messages of a conversation.
use mechagnome.Base.{
  ℕ, zero, suc, ◌+◌, ◌≤◌, ◌<◌, String, ◌≡◌, refl, sym, ap, ◌∙◌, inl, inr, Bool, true, false, Option,
  none, some, List, [], ◌∷◌, ◌++◌, arith, ◌==◌, nat_eq, string_eq, if◌then◌else◌, ltb, Bool-cases,
  Option-cases,
}
use mechagnome.Base.Rows.{length, delete_rows}
use mechagnome.Events.{take}
use mechagnome.Harness.Replay.{
  ToolCall, Message, user_message, assistant, tool_message, Record, State, ids_of, is_none_left,
  settle, said, on_user, on_model, on_observation, on_cancelled, replay_step, Entry, replay_from,
  Replay, start_from, name_of, name_all,
}

-- The calls of the last assistant's message that no tool's message answers.
abbrev pub open_after : List String → List Message → List String
open_after calls [] = calls
open_after calls (user_message c ∷ ms) = open_after [] ms
open_after calls (assistant turn ∷ ms) = open_after (ids_of turn.calls) ms
open_after calls (tool_message i name c ∷ ms) = open_after (delete_rows (λ j. j == i) calls) ms

abbrev pub open_calls : List Message → List String
open_calls ms = open_after [] ms

open_after-append :
    (calls : List String) (xs ys : List Message)
    → open_after calls (xs ++ ys) ≡ open_after (open_after calls xs) ys
open_after-append calls [] ys = refl
open_after-append calls (user_message c ∷ xs) ys = open_after-append [] xs ys
open_after-append calls (assistant turn ∷ xs) ys = open_after-append (ids_of turn.calls) xs ys
open_after-append calls (tool_message i name c ∷ xs) ys =
    open_after-append (delete_rows (λ j. j == i) calls) xs ys

length-snoc : (xs : List Message) (m : Message) → length (xs ++ (m ∷ [])) ≡ length xs + 1
length-snoc [] m = refl
length-snoc (x ∷ xs) m = omega (arith, length-snoc xs m)

take_all : (xs : List Message) → take (length xs) xs ≡ xs
take_all [] = refl
take_all (x ∷ xs) = ap (◌∷◌ x) (take_all xs)

take-snoc :
    (n : ℕ) (xs : List Message) (m : Message) → n ≤ length xs → take n (xs ++ (m ∷ [])) ≡ take n xs
take-snoc zero xs m h = refl
take-snoc (suc n) [] m h = absurd (omega arith)
take-snoc (suc n) (x ∷ xs) m h = ap (◌∷◌ x) (take-snoc n xs m (omega arith))

length-take : (n : ℕ) (xs : List Message) → n ≤ length xs → length (take n xs) ≡ n
length-take zero xs h = refl
length-take (suc n) [] h = absurd (omega arith)
length-take (suc n) (x ∷ xs) h = omega (arith, length-take n xs (omega arith))

take-take : (b n : ℕ) (xs : List Message) → b ≤ n → take b (take n xs) ≡ take b xs
take-take zero n xs h = refl
take-take (suc b) zero xs h = absurd (omega arith)
take-take (suc b) (suc n) [] h = refl
take-take (suc b) (suc n) (x ∷ xs) h = ap (◌∷◌ x) (take-take b n xs (omega arith))

-- While a prompt runs: the pending calls are the open ones, the safe messages leave none open, and
-- they hold the prompt, which stands behind the messages of the fork's source.
pub record Running (base : List Message) (s : State) (start : ℕ) : Type 0 where
  pub pending_open : s.pending_call_ids ≡ open_calls s.messages
  pub safe_settled : open_calls (take s.safe_length s.messages) ≡ []
  pub prompt_kept : start < s.safe_length
  pub safe_within : s.safe_length ≤ length s.messages
  pub base_before : length base ≤ start

pub record IsReplay (base : List Message) (s : State) : Type 0 where
  pub snapshot : take (length base) s.messages ≡ base
  pub long : length base ≤ length s.messages
  pub running : (start : ℕ) → s.prompt_start ≡ some start → Running base s start

none_left : (xs : List String) → is_none_left xs ≡ true → xs ≡ []
none_left [] h = refl
none_left (x ∷ xs) h = absurd (ground arith)

module _ (base : List Message) where
  settle-Running : (s : State) (start : ℕ) → Running base s start → Running base (settle s) start
  settle-Running s start r = elim (Bool-cases (is_none_left s.pending_call_ids)) [
    | inl done ↦ record {
      pending_open = r.pending_open;
      safe_settled =
          rw (done, take_all s.messages) (sym r.pending_open ∙ none_left s.pending_call_ids done);
      prompt_kept = rw done (omega (arith, r.prompt_kept, r.safe_within));
      safe_within = rw done (omega arith);
      base_before = r.base_before;
    }
    | inr more ↦ record {
      pending_open = r.pending_open;
      safe_settled = rw more r.safe_settled;
      prompt_kept = rw more r.prompt_kept;
      safe_within = rw more r.safe_within;
      base_before = r.base_before;
    }
  ]

  abbrev grown : State → Message → List String → List ToolCall → State
  grown s m pending names = record s {
    messages = s.messages ++ (m ∷ []);
    pending_call_ids = pending;
    call_names = names;
  }

  grown-Running :
      (s : State) (m : Message) (pending : List String) (names : List ToolCall) (start : ℕ)
      → pending ≡ open_after s.pending_call_ids (m ∷ [])
      → Running base s start
      → Running base (grown s m pending names) start
  grown-Running s m pending names start e r = record {
    pending_open =
        e
        ∙ ap (λ (calls : List String). open_after calls (m ∷ [])) r.pending_open
        ∙ sym (open_after-append [] s.messages (m ∷ []));
    safe_settled = rw (take-snoc s.safe_length s.messages m r.safe_within) r.safe_settled;
    prompt_kept = r.prompt_kept;
    safe_within = omega (arith, length-snoc s.messages m, r.safe_within);
    base_before = r.base_before;
  }

  grown-IsReplay :
      (s : State) (m : Message) (pending : List String) (names : List ToolCall)
      → pending ≡ open_after s.pending_call_ids (m ∷ [])
      → IsReplay base s
      → IsReplay base (settle (grown s m pending names))
  grown-IsReplay s m pending names e i = record {
    snapshot = take-snoc (length base) s.messages m i.long ∙ i.snapshot;
    long = omega (arith, length-snoc s.messages m, i.long);
    running = λ start h.
        settle-Running (grown s m pending names) start
          (grown-Running s m pending names start e (i.running start h));
  }

  said-IsReplay :
      (s : State) (text : String) (external : Bool)
      → IsReplay base s
      → IsReplay base (said s text external)
  said-IsReplay s text external i = record {
    snapshot = take-snoc (length base) s.messages (user_message text) i.long ∙ i.snapshot;
    long = omega (arith, length-snoc s.messages (user_message text), i.long);
    running = λ start h.
        let here : length s.messages ≡ start = ground arith in
        record {
          pending_open = sym (open_after-append [] s.messages (user_message text ∷ []));
          safe_settled =
              rw (take_all (s.messages ++ (user_message text ∷ [])))
                (open_after-append [] s.messages (user_message text ∷ []));
          prompt_kept = omega (arith, here, length-snoc s.messages (user_message text));
          safe_within = omega arith;
          base_before = omega (arith, here, i.long);
        };
  }

  cut :
      (n : ℕ) (xs : List Message)
      → n ≤ length xs
      → length base ≤ n
      → take (length base) xs ≡ base
      → (take (length base) (take n xs) ≡ base) × (length base ≤ length (take n xs))
  cut n xs short long kept =
      (take-take (length base) n xs long ∙ kept, omega (arith, length-take n xs short, long))

  cancelled-IsReplay :
      (s : State) (known by_user : Bool)
      → IsReplay base s
      → IsReplay base (on_cancelled s known by_user)
  unfolding on_cancelled
  cancelled-IsReplay s known by_user i = elim (Option-cases s.prompt_start) [
    | inl idle ↦ record {
      snapshot = rw idle i.snapshot;
      long = rw idle i.long;
      running = λ start h. absurd (ground arith);
    }
    | inr (start, at) ↦
        let r = i.running start at in
        let (kept, long) =
          cut (if known then s.safe_length else start) s.messages
            (ground (arith, r.safe_within, r.prompt_kept))
            (ground (arith, r.prompt_kept, r.base_before)) i.snapshot in
        record {
          snapshot = rw at kept;
          long = rw at long;
          running = λ start h. absurd (ground arith);
        }
  ]

  replay_step-IsReplay :
      (s : State) (r : Record) → IsReplay base s → IsReplay base (replay_step s r)
  unfolding replay_step on_user on_model on_observation
  replay_step-IsReplay s (Record.user content external previous) i = said-IsReplay s _ external i
  replay_step-IsReplay s (Record.model turn) i =
      grown-IsReplay s (assistant turn) (ids_of turn.calls) (name_all turn.calls s.call_names) refl
        i
  replay_step-IsReplay s (Record.tool_observation call observation) i =
      grown-IsReplay s (tool_message call (name_of s.call_names call) observation)
        (delete_rows (λ j. j == call) s.pending_call_ids) s.call_names refl i
  replay_step-IsReplay s Record.final i = record {
    snapshot = i.snapshot;
    long = i.long;
    running = λ start h. absurd (ground arith);
  }
  replay_step-IsReplay s (Record.cancelled known by_user) i = cancelled-IsReplay s known by_user i
  replay_step-IsReplay s Record.other i = i

replay_from-IsReplay :
    (base : List Message) (through : Option ℕ) (s : State) (es : List Entry)
    → IsReplay base s
    → IsReplay base (replay_from through s es)
unfolding replay_from
replay_from-IsReplay base through s [] i = i
replay_from-IsReplay base through s (e ∷ es) i =
    elim (Bool-cases (elim through [ none ↦ false | some n ↦ ltb n e.seq ])) [
      | inl past ↦ rw past i
      | inr within ↦ rw within (
          replay_from-IsReplay base through (replay_step s e.entry) es
            (replay_step-IsReplay base s e.entry i))
    ]

start_from-IsReplay : (source : Replay) → IsReplay source.messages (start_from source)
start_from-IsReplay source = record {
  snapshot = take_all source.messages;
  long = omega arith;
  running = λ start h. absurd (ground arith);
}

module _ (source : Replay) (through : Option ℕ) (es : List Entry) where
  abbrev pub replayed : State
  replayed = replay_from through (start_from source) es

  replayed-IsReplay : IsReplay source.messages replayed
  replayed-IsReplay =
      replay_from-IsReplay source.messages through (start_from source) es
        (start_from-IsReplay source)

  -- Whatever a session's events are, a replay keeps the messages of the fork's source in front.
  pub replay_from-keeps : take (length source.messages) replayed.messages ≡ source.messages
  replay_from-keeps = replayed-IsReplay.snapshot
