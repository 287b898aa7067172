-- ===== src/Check/Race/Alone.antt =====
-- check.go: the steps of a goroutine that nobody disturbs are `decideAndReport`.
use go_txnpure.Base.{
  ℤ, nat_eq, bytes_Eq, ℕ, zero, suc, ◌≡◌, refl, sym, ap, ◌∙◌, Option, none, some, List,
}
use go_txnpure.Allow.{bump_call}
use go_txnpure.Allowlist.{decide}
use go_txnpure.Check.{
  Verdict, covered, declined, ◌>>=◌, call_site, region, listed, listed_by, listed_in, verdict,
  conclude, decide_and_report,
}
use go_txnpure.Check.Race.{
  Event, at_region, at_list, uncovered, ended, Progress, arrived, counted, follow, ask_list,
  advance_stage, in_stage, advance,
}
use go_txnpure.Check.Tiers.{Notes-bump_call}
use go_txnpure.Identity.{ViolationKey, key_of}
use go_txnpure.State.{Allowlist, World, Detector}

-- So many steps of one goroutine, one after the other.
abbrev pub steps : Detector → Event → ℕ → Progress × World → Progress × World
steps d c zero (p, w) = (p, w)
steps d c (suc n) (p, w) = steps d c n (advance d c p w)

module _ (d : Detector) (c : Event) (key : ViolationKey) (k : ℤ) where
  finished_with : Verdict → Progress × World
  finished_with v = (counted key k ended, conclude d c.env c.scope c.op c.open_now k c.cfg.attrs v)

  from_uncovered :
      (v : Verdict) → steps d c 1 (in_stage key k (follow uncovered v)) ≡ finished_with v
  unfolding advance advance_stage finished_with
  from_uncovered (covered w) = refl
  from_uncovered (declined counts w) = refl

  from_list :
      (counts : List ℤ) (w : World)
      → steps d c 3 (counted key k (at_list counts), w)
        ≡ finished_with (listed c.scope c.op key k (counts, w))
  unfolding advance advance_stage finished_with listed
  from_list counts w = at w.allowlist
    where
      at :
          (a : Option Allowlist)
          → steps d c 2 (in_stage key k (ask_list c key k counts w a))
            ≡ finished_with (listed_in c.scope c.op key k (counts, w) a)
      at none = refl
      at (some a) = from_uncovered (
          listed_by c.scope key counts
            (record w { allowlist = some (decide a (w.scope_at c.scope).name c.op k).1 })
            (decide a (w.scope_at c.scope).name c.op k).0)

  from_region :
      (v : Verdict)
      → steps d c 3 (in_stage key k (follow at_list v))
        ≡ finished_with (v >>= listed c.scope c.op key k)
  unfolding advance advance_stage finished_with
  from_region (covered w) = refl
  from_region (declined counts w) = from_list counts w

  from_site :
      (v : Verdict)
      → steps d c 4 (in_stage key k (follow at_region v))
        ≡ finished_with (v >>= λ asked. region c.mark asked >>= listed c.scope c.op key k)
  unfolding advance advance_stage finished_with
  from_site (covered w) = refl
  from_site (declined counts w) = from_region (region c.mark (counts, w))

-- Six steps of a goroutine that nobody disturbs end its call, and leave what the call in one piece
-- leaves.
pub steps-decide_and_report :
    (d : Detector) (c : Event) (w : World)
    → (let (k, w') = bump_call c.scope (key_of (w.scope_at c.scope).name c.op) w in
        steps d c 6 (arrived, w) ≡ (
          counted (key_of (w.scope_at c.scope).name c.op) k ended,
          decide_and_report d c.env c.scope c.mark c.op c.open_now c.cfg w,
        ))
unfolding advance advance_stage decide_and_report verdict finished_with
steps-decide_and_report d c w =
    from_site d c key k (call_site c.cfg c.scope key k w')
    ∙ ap (λ named. finished_with d c key k (answer (key_of named c.op)))
        (sym ((Notes-bump_call c.scope key w).looks.names c.scope))
  where
    key : ViolationKey
    key = key_of (w.scope_at c.scope).name c.op

    k : ℤ
    k = (bump_call c.scope key w).0

    w' : World
    w' = (bump_call c.scope key w).1

    answer : ViolationKey → Verdict
    answer asked_for = call_site c.cfg c.scope asked_for k w' >>= λ asked.
        region c.mark asked >>= listed c.scope c.op asked_for k
