-- ===== src/Check/Reported.antt =====
-- check.go: which violation a call is reported as, if any.
use go_txnpure.Base.{
  if◌then◌else◌, any, ℤ, nat_eq, bytes_Eq, ℕ, ◌≡◌, refl, ap, ◌∙◌, Option, List, [],
}
use mathlib.Core.Path.{subst}
use go_txnpure.Allow.{bump_call, bumped}
use go_txnpure.Check.{
  CheckConfig, Verdict, covered, declined, call_site, region, listed, verdict, conclude,
  decide_and_report, make_violation, emit_violation,
}
use go_txnpure.Check.Tiers.{
  Tier, call_tier, region_tier, list_tier, tiers, allows, all_counts, Looks, Looks-trans, Notes,
  Notes-bump_call,
}
use go_txnpure.Identity.{Op, ViolationKey, key_Eq, key_of}
use go_txnpure.Report.{ScopeAttr, violation}
use go_txnpure.Reporter.{Reporter, notify}
use go_txnpure.State.{Env, World, Detector, report}
use go_txnpure.Check.Says.{
  Says, Says-bind, Untouched, call_site-Says, SameList, region-Says, Anything, listed-Says,
}

verdict-Says :
    (i : ℕ) (mark : Option ℕ) (op : Op) (k : ℤ) (cfg : CheckConfig) (w : World)
    → Says Anything w [] (tiers w i mark op k cfg) (verdict i mark op k cfg w)
unfolding verdict
verdict-Says i mark op k cfg w =
    let key = key_of (w.scope_at i).name op in
    Says-bind (Untouched w) Anything w [] (call_tier cfg k) _ (call_site cfg i key k w) _
      (call_site-Says cfg i key k w)
      λ counts u look kept.
        Says-bind (SameList w.allowlist) Anything u counts (region_tier w.mark_at mark) _
          (region mark (counts, u)) _
          (subst
            (λ f.
              Says (SameList w.allowlist) u counts (region_tier f mark) (region mark (counts, u)))
            kept.0
            (subst
              (λ a.
                Says (SameList a) u counts (region_tier u.mark_at mark) (region mark (counts, u)))
              kept.1 (region-Says mark counts u)))
          λ more v look' same.
            subst
              (λ n.
                Says Anything v more (list_tier w.allowlist n op k) (listed i op key k (more, v)))
              (look'.names i ∙ look.names i)
              (subst
                (λ a.
                  Says Anything v more (list_tier a (v.scope_at i).name op k)
                    (listed i op key k (more, v)))
                same (listed-Says i op key k more v))

make_violation-Looks :
    (d : Detector) (env : Env) (i : ℕ) (op : Op) (open_now k : ℤ) (counts : List ℤ)
    (attrs : List ScopeAttr) (w u : World)
    → Looks w u
    → make_violation d env (u.scope_at i) op open_now k counts attrs
      ≡ make_violation d env (w.scope_at i) op open_now k counts attrs
unfolding make_violation
make_violation-Looks d env i op open_now k counts attrs w u look =
    rw (look.names i, look.attrs i) refl

-- The reporters after a call with an open transaction: they are told of the call if no tier that is
-- present covers it, with the counts of all of them in order.
abbrev pub reported :
    Detector → Env → ℕ → Op → ℤ → ℤ → List ScopeAttr → List Tier → World → List Reporter
reported d env i op open_now k attrs ts w =
    if any allows ts
    then w.reporters
    else notify env.clock
        (violation (make_violation d env (w.scope_at i) op open_now k (all_counts ts) attrs))
        w.reporters

pub decide_and_report-reported :
    (d : Detector) (env : Env) (i : ℕ) (mark : Option ℕ) (op : Op) (open_now : ℤ)
    (cfg : CheckConfig) (w : World)
    → (decide_and_report d env i mark op open_now cfg w).reporters ≡ (
        let k = (bumped (key_of (w.scope_at i).name op) (w.scope_at i)).n in
        reported d env i op open_now k cfg.attrs (tiers w i mark op k cfg) w)
unfolding decide_and_report bump_call emit_violation report
decide_and_report-reported d env i mark op open_now cfg w = concluded (verdict i mark op k cfg w') (
    subst (λ ts. Says Anything w' [] ts (verdict i mark op k cfg w')) same_tiers
      (verdict-Says i mark op k cfg w'))
  where
    key : ViolationKey
    key = key_of (w.scope_at i).name op

    k : ℤ
    k = (bumped key (w.scope_at i)).n

    w' : World
    w' = (bump_call i key w).1

    counted : Notes w w'
    counted = Notes-bump_call i key w

    same_tiers : tiers w' i mark op k cfg ≡ tiers w i mark op k cfg
    same_tiers = rw (counted.marks, counted.list, counted.looks.names i) refl

    concluded :
        (v : Verdict)
        → Says Anything w' [] (tiers w i mark op k cfg) v
        → (conclude d env i op open_now k cfg.attrs v).reporters
          ≡ reported d env i op open_now k cfg.attrs (tiers w i mark op k cfg) w
    concluded (covered u) (hit, look) = rw hit (Looks-trans counted.looks look).reporters
    concluded (declined more u) (miss, same, look, _) =
        let all = Looks-trans counted.looks look in
        rw (miss, same, all.reporters)
          (ap (λ v. notify env.clock (violation v) w.reporters)
            (make_violation-Looks d env i op open_now k _ cfg.attrs w u all))
