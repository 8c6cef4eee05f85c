-- ===== src/Invoke/Trail.antt =====
-- What a run of a tool leaves in the log and in the count of calls: a forest of calls.
use mechagnome.Base.{
  ℕ, suc, ◌+◌, ◌≤◌, max, String, ◌≡◌, refl, sym, ap, ◌∙◌, Bool, true, false, some, List, [], ◌∷◌,
  ◌++◌, arith, nat_eq, string_eq,
}
use mechagnome.Invoke.Program.{Invocation}
use mechagnome.Invoke.Marks.{Mark, started, ended, marks, Keeps}

-- Calls, one after the other: each with its id, whether its end is logged, and the calls within it.
pub data Forest : Type 0 where
  nil : Forest
  call : (call_id : String) (closed : Bool) (inner rest : Forest) → Forest

abbrev pub end_of : Bool → String → List Mark → List Mark
end_of true c ms = ended (some c) ∷ ms
end_of false c ms = ms

unfoldable pub marks_of : Forest → List Mark
marks_of nil = []
marks_of (call c closed inner rest) =
    started (some c) ∷ (marks_of inner ++ end_of closed c (marks_of rest))

unfoldable pub height : Forest → ℕ
height nil = 0
height (call c closed inner rest) = max (suc (height inner)) (height rest)

unfoldable pub size : Forest → ℕ
size nil = 0
size (call c closed inner rest) = suc (size inner + size rest)

unfoldable pub join : Forest → Forest → Forest
join nil g = g
join (call c closed inner rest) g = call c closed inner (join rest g)

pub append_assoc : {A : Type 0} (xs ys zs : List A) → (xs ++ ys) ++ zs ≡ xs ++ (ys ++ zs)
append_assoc [] ys zs = refl
append_assoc (x ∷ xs) ys zs = ap (λ l. x ∷ l) (append_assoc xs ys zs)

end_of-append :
    (closed : Bool) (c : String) (ms ns : List Mark)
    → end_of closed c (ms ++ ns) ≡ end_of closed c ms ++ ns
end_of-append true c ms ns = refl
end_of-append false c ms ns = refl

marks_of-join : (f g : Forest) → marks_of (join f g) ≡ marks_of f ++ marks_of g
unfolding marks_of join
marks_of-join nil g = refl
marks_of-join (call c closed inner rest) g =
    rw (marks_of-join rest g, end_of-append closed c (marks_of rest) (marks_of g))
      (ap (λ l. started (some c) ∷ l)
        (sym (append_assoc (marks_of inner) (end_of closed c (marks_of rest)) (marks_of g))))

height-join : (f g : Forest) → height (join f g) ≡ max (height f) (height g)
unfolding height join
height-join nil g = omega arith
height-join (call c closed inner rest) g = omega (arith, height-join rest g)

size-join : (f g : Forest) → size (join f g) ≡ size f + size g
unfolding size join
size-join nil g = omega arith
size-join (call c closed inner rest) g = omega (arith, size-join rest g)

-- From one state to another, the log has grown by the marks of a forest at most `h` high, no larger
-- than the calls counted since; the count has not passed `cap`, unless it was above it.
pub record Trail (cap h : ℕ) (s s' : Invocation) : Type 0 where
  pub forest : Forest
  pub logged : marks s'.db.events ≡ marks s.db.events ++ marks_of forest
  pub low : height forest ≤ h
  pub counted : size forest + s.calls ≤ s'.calls
  pub capped : s'.calls ≤ max s.calls cap

pub append_nil : (ms : List Mark) → ms ≡ ms ++ []
append_nil [] = refl
append_nil (m ∷ ms) = ap (λ l. m ∷ l) (append_nil ms)

module _ (cap h : ℕ) where
  pub Trail-quiet : (s s' : Invocation) → Keeps s.db s'.db → s'.calls ≡ s.calls → Trail cap h s s'
  unfolding marks_of height size
  Trail-quiet s s' keeps same = record {
    forest = nil;
    logged = keeps ∙ append_nil (marks s.db.events);
    low = omega arith;
    counted = omega arith;
    capped = omega arith;
  }

  pub Trail-trans : {a b c : Invocation} → Trail cap h a b → Trail cap h b c → Trail cap h a c
  Trail-trans {a} {b} {c} p q = record {
    forest = join p.forest q.forest;
    logged =
        q.logged
        ∙ ap (λ l. l ++ marks_of q.forest) p.logged
        ∙ append_assoc (marks a.db.events) (marks_of p.forest) (marks_of q.forest)
        ∙ ap (λ l. marks a.db.events ++ l) (sym (marks_of-join p.forest q.forest));
    low = omega (arith, height-join p.forest q.forest, p.low, q.low);
    counted = omega (arith, size-join p.forest q.forest, p.counted, q.counted);
    capped = omega (arith, p.capped, q.capped);
  }
