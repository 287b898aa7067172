-- ===== src/Check/Race/Handed.antt =====
-- check.go and allow.go: the numbers that goroutines get whose calls run at the same time.
use go_txnpure.Base.{
  ltb, leb, length, pos, max_int64, inc64, inc64-pos, nat_eq, bytes_Eq, ℕ, zero, suc, ◌+◌, ◌≤◌, ◌<◌,
  ◌≡◌, refl, sym, ap, ◌∙◌, Bool, true, false, ◌&&◌, List, [], ◌∷◌, arith,
}
use go_txnpure.Check.Calls.{calls_made, one_more}
use go_txnpure.Check.Race.{Event, Goroutines, step_at, interleave, start_all}
use go_txnpure.Check.Race.Counting.{
  one_if, is_number, has_counted, has_number, how_many, how_many-bound, Counts, step_at-Counts,
}
use go_txnpure.Identity.{ViolationKey}
use go_txnpure.State.{World, Detector}

length-step_at :
    (d : Detector) (n : ℕ) (gs : Goroutines) (w : World) → length (step_at d n gs w).0 ≡ length gs
unfolding step_at
length-step_at d n [] w = refl
length-step_at d zero ((c, p) ∷ gs) w = refl
length-step_at d (suc n) (g ∷ gs) w = ap suc (length-step_at d n gs w)

-- The counter of the identity in the scope is the number of goroutines that have counted, and each
-- number from 1 up to it belongs to exactly one of them, any other number to none.
pub record Handed (key : ViolationKey) (j : ℕ) (s : Goroutines × World) : Type 0 where
  pub total : calls_made key (s.1.scope_at j) ≡ pos (how_many (has_counted key j) s.0)
  pub each :
      (m : ℕ)
      → how_many (has_number key j m) s.0
        ≡ one_if (ltb 0 m && leb m (how_many (has_counted key j) s.0))

one_number :
    (hit : Bool) (m n holders begun : ℕ)
    → begun ≡ n + one_if hit
    → holders ≡ one_if (ltb 0 m && leb m n) + one_if (hit && is_number m (pos (n + 1)))
    → holders ≡ one_if (ltb 0 m && leb m begun)
one_number true m n holders begun p q = ground arith
one_number false m n holders begun p q = ground arith

Handed-next :
    (key : ViolationKey) (j : ℕ) (gs : Goroutines) (w : World) (r : Goroutines × World)
    → length r.0 ≤ max_int64
    → Handed key j (gs, w)
    → Counts key j gs w r
    → Handed key j r
Handed-next key j gs w r fits h c = record {
  total = c.made ∙ ap (one_more c.hit) h.total ∙ at c.hit c.begins ∙ ap pos (sym c.begins);
  each = λ m.
      one_number c.hit m n _ _ c.begins
        (omega (arith, c.numbers m, h.each m, numbered m c.hit c.begins));
}
  where
    n : ℕ
    n = how_many (has_counted key j) gs

    room : how_many (has_counted key j) r.0 ≡ n + 1 → n < max_int64
    room e = omega (arith, e, how_many-bound (has_counted key j) r.0, fits)

    at :
        (hit : Bool)
        → how_many (has_counted key j) r.0 ≡ n + one_if hit
        → one_more hit (pos n) ≡ pos (n + one_if hit)
    at true e = inc64-pos n (room e)
    at false e = ap pos (omega arith)

    numbered :
        (m : ℕ) (hit : Bool)
        → how_many (has_counted key j) r.0 ≡ n + one_if hit
        → one_if (hit && is_number m (inc64 (calls_made key (w.scope_at j))))
          ≡ one_if (hit && is_number m (pos (n + 1)))
    numbered m true e = ap (λ k. one_if (is_number m k)) (ap inc64 h.total ∙ inc64-pos n (room e))
    numbered m false e = refl

Handed-interleave :
    (key : ViolationKey) (j : ℕ) (d : Detector) (schedule : List ℕ) (gs : Goroutines) (w : World)
    → length gs ≤ max_int64
    → Handed key j (gs, w)
    → Handed key j (interleave d schedule gs w)
unfolding interleave
Handed-interleave key j d [] gs w fits h = h
Handed-interleave key j d (n ∷ schedule) gs w fits h =
    let (gs', w') = step_at d n gs w in
    let fits' : length gs' ≤ max_int64 = omega (arith, fits, length-step_at d n gs w) in
    Handed-interleave key j d schedule gs' w' fits'
      (Handed-next key j gs w (gs', w') fits' h (step_at-Counts key j d n gs w))

how_many-start_all :
    (key : ViolationKey) (j m : ℕ) (cs : List Event)
    → (how_many (has_counted key j) (start_all cs) ≡ 0)
      × (how_many (has_number key j m) (start_all cs) ≡ 0)
how_many-start_all key j m [] = (refl, refl)
how_many-start_all key j m (c ∷ cs) =
    let (p, q) = how_many-start_all key j m cs in (omega (arith, p), omega (arith, q))

length-start_all : (cs : List Event) → length (start_all cs) ≡ length cs
length-start_all [] = refl
length-start_all (c ∷ cs) = ap suc (length-start_all cs)

-- However the steps of goroutines interleave whose calls run at the same time, in whatever scopes
-- and with whatever tiers: of an identity that its scope has not counted before, the counter is at
-- every moment the number of goroutines that have counted a call of it, and these have the numbers
-- from 1 up to it, each number just one of them, if there are fewer than 2^63 goroutines.
pub interleave-Handed :
    (d : Detector) (cs : List Event) (schedule : List ℕ) (w : World) (key : ViolationKey) (j : ℕ)
    → length cs ≤ max_int64
    → calls_made key (w.scope_at j) ≡ pos 0
    → Handed key j (interleave d schedule (start_all cs) w)
interleave-Handed d cs schedule w key j fits new =
    Handed-interleave key j d schedule (start_all cs) w (omega (arith, fits, length-start_all cs))
      (record {
        total = new ∙ ap pos (sym (how_many-start_all key j 0 cs).0);
        each =
            λ m. (how_many-start_all key j m cs).1 ∙ none_yet m (how_many-start_all key j m cs).0;
      })
  where
    none_yet :
        (m : ℕ)
        → how_many (has_counted key j) (start_all cs) ≡ 0
        → 0 ≡ one_if (ltb 0 m && leb m (how_many (has_counted key j) (start_all cs)))
    none_yet m e = ground arith
