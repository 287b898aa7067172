-- ===== src/Check/Race/Counting.antt =====
-- check.go and allow.go: what one step of one goroutine does to the counters.
use go_txnpure.Base.{
  ◌==◌, if◌then◌else◌, ==_iff, length, ℤ, pos, negsuc, inc64, nat_eq, bytes_Eq, ℕ, zero, suc, ◌+◌,
  ◌≤◌, ◌≡◌, refl, ap, ◌∙◌, Bool, true, false, ◌&&◌, Option, none, some, List, [], ◌∷◌, arith,
}
use go_txnpure.Allow.{bump_call, bumped}
use go_txnpure.Allowlist.{decide}
use go_txnpure.Check.{Verdict, covered, declined, emit_violation}
use go_txnpure.Check.Calls.{
  calls_made, one_more, SameCalls, SameCalls-Tolerant, calls_made-bump_call,
}
use go_txnpure.Check.Preserves.{
  VerdictKeeps, call_site-VerdictKeeps, region-VerdictKeeps, listed_by-VerdictKeeps,
}
use go_txnpure.Check.Race.{
  Event, Stage, at_site, at_region, at_list, answered, uncovered, ended, Progress, arrived, counted,
  follow, ask_list, advance_stage, advance, Goroutines, step_at,
}
use go_txnpure.Identity.{ViolationKey, key_eq, key_eq_iff, key_of}
use go_txnpure.State.{Allowlist, World, Detector, report}

abbrev pub one_if : Bool → ℕ
one_if b = if b then 1 else 0

abbrev pub is_number : ℕ → ℤ → Bool
is_number m (pos n) = n == m
is_number m (negsuc n) = false

-- Whether a goroutine has counted its call for an identity in a scope, and with which number.
abbrev pub has_counted : ViolationKey → ℕ → Event × Progress → Bool
has_counted key j (c, arrived) = false
has_counted key j (c, counted key' k st) = (c.scope == j) && key_eq key' key

abbrev pub has_number : ViolationKey → ℕ → ℕ → Event × Progress → Bool
has_number key j m (c, arrived) = false
has_number key j m (c, counted key' k st) = ((c.scope == j) && key_eq key' key) && is_number m k

abbrev pub how_many : (Event × Progress → Bool) → Goroutines → ℕ
how_many test [] = 0
how_many test (g ∷ gs) = one_if (test g) + how_many test gs

pub how_many-bound :
    (test : Event × Progress → Bool) (gs : Goroutines) → how_many test gs ≤ length gs
how_many-bound test [] = omega arith
how_many-bound test (g ∷ gs) = at (test g) (how_many-bound test gs)
  where
    at : (b : Bool) → how_many test gs ≤ length gs → one_if b + how_many test gs ≤ suc (length gs)
    at true h = omega (arith, h)
    at false h = omega (arith, h)

-- No step behind the count changes a counter.
follow-SameCalls :
    (w : World) (next : List ℤ → Stage) (v : Verdict)
    → VerdictKeeps SameCalls w v
    → SameCalls w (follow next v).1
follow-SameCalls w next (covered u) p = p
follow-SameCalls w next (declined counts u) p = p

advance_stage-SameCalls :
    (d : Detector) (c : Event) (key : ViolationKey) (k : ℤ) (st : Stage) (w : World)
    → SameCalls w (advance_stage d c key k st w).1
unfolding advance_stage emit_violation report
advance_stage-SameCalls d c key k at_site w =
    follow-SameCalls w at_region _
      (call_site-VerdictKeeps SameCalls SameCalls-Tolerant c.cfg c.scope key k w)
advance_stage-SameCalls d c key k (at_region counts) w =
    follow-SameCalls w at_list _ (region-VerdictKeeps SameCalls SameCalls-Tolerant c.mark counts w)
advance_stage-SameCalls d c key k (at_list counts) w = at w.allowlist
  where
    at : (a : Option Allowlist) → SameCalls w (ask_list c key k counts w a).1
    at none = SameCalls-Tolerant.same w
    at (some a) = SameCalls-Tolerant.list (some (decide a (w.scope_at c.scope).name c.op k).1) w
advance_stage-SameCalls d c key k (answered counts e) w =
    follow-SameCalls w uncovered _
      (listed_by-VerdictKeeps SameCalls SameCalls-Tolerant c.scope key counts w e)
advance_stage-SameCalls d c key k (uncovered counts) w = record { counts = λ key' j. refl }
advance_stage-SameCalls d c key k ended w = SameCalls-Tolerant.same w

-- A step counts a call of the identity, which gets the next number, or it changes no count.
pub record Counts (key : ViolationKey) (j : ℕ) (gs : Goroutines) (w : World)
    (r : Goroutines × World) : Type 0 where
  pub hit : Bool
  pub made : calls_made key (r.1.scope_at j) ≡ one_more hit (calls_made key (w.scope_at j))
  pub begins : how_many (has_counted key j) r.0 ≡ how_many (has_counted key j) gs + one_if hit
  pub numbers :
      (m : ℕ)
      → how_many (has_number key j m) r.0
        ≡ how_many (has_number key j m) gs
          + one_if (hit && is_number m (inc64 (calls_made key (w.scope_at j))))

module _ (key : ViolationKey) (j : ℕ) (d : Detector) where
  advance-Counts :
      (c : Event) (p : Progress) (gs : Goroutines) (w : World)
      → (let (p', w') = advance d c p w in Counts key j ((c, p) ∷ gs) w ((c, p') ∷ gs, w'))
  unfolding advance bump_call bumped
  advance-Counts c arrived gs w = record {
    hit = (c.scope == j) && key_eq own key;
    made = calls_made-bump_call c.scope own w key j;
    begins = omega arith;
    numbers = λ m. omega (arith, ap one_if (agree m (c.scope == j) refl (key_eq own key) refl));
  }
    where
      own : ViolationKey
      own = key_of (w.scope_at c.scope).name c.op

      agree :
          (m : ℕ) (b : Bool)
          → (c.scope == j) ≡ b
          → (b' : Bool) → key_eq own key ≡ b'
          → ((b && b') && is_number m (bump_call c.scope own w).0)
            ≡ ((b && b') && is_number m (inc64 (calls_made key (w.scope_at j))))
      agree m true e true e' =
          ap (λ n. is_number m (inc64 n))
            (ap (λ x. calls_made x (w.scope_at c.scope)) ((key_eq_iff own key).0 e')
              ∙ ap (λ i. calls_made key (w.scope_at i)) ((==_iff c.scope j).0 e))
      agree m true e false e' = refl
      agree m false e b' e' = refl
  advance-Counts c (counted key' k st) gs w = record {
    hit = false;
    made = (advance_stage-SameCalls d c key' k st w).counts key j;
    begins = omega arith;
    numbers = λ m. omega arith;
  }

  pub step_at-Counts : (n : ℕ) (gs : Goroutines) (w : World) → Counts key j gs w (step_at d n gs w)
  unfolding step_at
  step_at-Counts n [] w = record {
    hit = false;
    made = refl;
    begins = omega arith;
    numbers = λ m. omega arith;
  }
  step_at-Counts zero ((c, p) ∷ gs) w = advance-Counts c p gs w
  step_at-Counts (suc n) (g ∷ gs) w =
      let r = step_at-Counts n gs w in
      record {
        hit = r.hit;
        made = r.made;
        begins = omega (arith, r.begins);
        numbers = λ m. omega (arith, r.numbers m);
      }
