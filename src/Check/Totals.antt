-- ===== src/Check/Totals.antt =====
-- check.go and allow.go: what the scope holds of a call site with declared counts that is its only one.
use go_txnpure.Base.{
  if◌then◌else◌, ==_iff, ℤ, pos, max_int64, inc64, inc64-pos, nat_eq, Bytes, bytes_Eq, lookup,
  insert, ℕ, zero, suc, ◌<◌, ◌≡◌, refl, sym, ap, ◌∙◌, Bool, true, false, none, some, List, [], ◌∷◌,
  arith,
}
use mathlib.Core.Path.{subst}
use go_txnpure.Allow.{count_or_new, declare, bump_call, bumped, note_declared}
use go_txnpure.Allow.Counts.{covers_calls}
use go_txnpure.Check.{
  CheckConfig, covered, declined, ◌>>=◌, call_site, region, listed, listed_in, verdict, conclude,
  decide_and_report, emit_violation,
}
use go_txnpure.Check.Tiers.{Notes-bump_call, Notes-note_declared}
use go_txnpure.Identity.{Op, ViolationKey, key_Eq, key_eq, key_eq_iff, key_of}
use go_txnpure.Report.{ScopeAttr}
use go_txnpure.State.{Env, CallCount, Scope, World, Detector, put_scope, report}

put_scope-same : (i : ℕ) (s : Scope) (w : World) → (put_scope i s w).scope_at i ≡ s
put_scope-same i s w = rw ((==_iff i i).1 refl) refl

pub key_eq_self : (key : ViolationKey) → key_eq key key ≡ true
key_eq_self key = (key_eq_iff key key).1 refl

module _ (reason : Bytes) (c : ℤ) (cs : List ℤ) (attrs : List ScopeAttr) where
  -- AllowInTransaction with counts, and perhaps attributes.
  abbrev pub declaring : CheckConfig
  declaring = record { allowed = true; allow_reason = reason; allow_counts = c ∷ cs; attrs = attrs }

  -- The only entry of the scope's map after some calls.
  abbrev pub tallied : ViolationKey → ℕ → List (ViolationKey × CallCount)
  tallied key zero = []
  tallied key (suc n) = (key, record { n = pos (suc n); declared = c ∷ cs; reason = reason }) ∷ []

  module _ (d : Detector) (env : Env) (i : ℕ) (op : Op) (open_now : ℤ) where
    abbrev noted : ViolationKey → World → World
    noted key w = note_declared i key (c ∷ cs) reason w

    abbrev settled : ViolationKey → ℤ → World → World
    settled key k w =
        if covers_calls (c ∷ cs) k
        then noted key w
        else emit_violation d env i op open_now k (c ∷ cs) attrs (noted key w)

    -- With no region and no list the call site is the only tier.
    verdict-settled :
        (k : ℤ) (w : World)
        → w.allowlist ≡ none
        → conclude d env i op open_now k attrs (verdict i none op k declaring w)
          ≡ settled (key_of (w.scope_at i).name op) k w
    unfolding verdict call_site region listed
    verdict-settled k w h = at (covers_calls (c ∷ cs) k)
      where
        key : ViolationKey
        key = key_of (w.scope_at i).name op

        unlisted : (noted key w).allowlist ≡ none
        unlisted = (Notes-note_declared i key (c ∷ cs) reason w).list ∙ h

        at :
            (b : Bool)
            → conclude d env i op open_now k attrs (
                (if b then covered (noted key w) else declined (c ∷ cs) (noted key w)) >>= λ asked.
                region none asked >>= λ asked'. listed i op key k asked')
              ≡ (if b
                  then noted key w
                  else emit_violation d env i op open_now k (c ∷ cs) attrs (noted key w))
        at true = refl
        at false =
            ap
              (λ a.
                conclude d env i op open_now k attrs (listed_in i op key k (c ∷ cs, noted key w) a))
              unlisted

    decide-settled :
        (w : World)
        → w.allowlist ≡ none
        → decide_and_report d env i none op open_now declaring w ≡ (
            let key = key_of (w.scope_at i).name op in
            settled key (bump_call i key w).0 (bump_call i key w).1)
    unfolding decide_and_report
    decide-settled w h =
        let key = key_of (w.scope_at i).name op in
        let kept = Notes-bump_call i key w in
        verdict-settled (bump_call i key w).0 (bump_call i key w).1 (kept.list ∙ h)
        ∙ ap (λ named. settled (key_of named op) (bump_call i key w).0 (bump_call i key w).1)
            (kept.looks.names i)

    settled-scope_at :
        (key : ViolationKey) (k : ℤ) (w : World)
        → ((settled key k w).scope_at ≡ (noted key w).scope_at)
          × ((settled key k w).allowlist ≡ (noted key w).allowlist)
    unfolding emit_violation report
    settled-scope_at key k w = at (covers_calls (c ∷ cs) k)
      where
        at :
            (b : Bool)
            → let u =
                if b
                then noted key w
                else emit_violation d env i op open_now k (c ∷ cs) attrs (noted key w) in
              (u.scope_at ≡ (noted key w).scope_at) × (u.allowlist ≡ (noted key w).allowlist)
        at true = (refl, refl)
        at false = (refl, refl)

    pub found : (key : ViolationKey) (a : CallCount) → lookup key ((key, a) ∷ []) ≡ some a
    unfolding lookup
    found key a = rw (key_eq_self key) refl

    replaced : (key : ViolationKey) (a b : CallCount) → insert key b ((key, a) ∷ []) ≡ (key, b) ∷ []
    unfolding insert
    replaced key a b = rw (key_eq_self key) refl

    noted-scope_at :
        (key : ViolationKey) (a : CallCount) (w : World)
        → (w.scope_at i).calls ≡ (key, a) ∷ []
        → (noted key w).scope_at i ≡ record (w.scope_at i) {
          calls = (key, record a { declared = c ∷ cs; reason = reason }) ∷ [];
        }
    unfolding note_declared
    noted-scope_at key a w h =
        ap (λ o. (declare i key (c ∷ cs) reason w o).scope_at i) (ap (lookup key) h ∙ found key a)
        ∙ put_scope-same i _ w
        ∙ ap (λ l. record (w.scope_at i) { calls = l })
            (ap (insert key (record a { declared = c ∷ cs; reason = reason })) h ∙ replaced key a _)

    -- One more call of the identity.
    abbrev count_in : ViolationKey → List (ViolationKey × CallCount) → CallCount
    count_in key calls = let a = count_or_new (lookup key calls) in record a { n = inc64 a.n }

    count_in-tallied :
        (key : ViolationKey) (n : ℕ)
        → n < max_int64
        → ((count_in key (tallied key n)).n ≡ pos (suc n))
          × (insert key (count_in key (tallied key n)) (tallied key n)
              ≡ (key, count_in key (tallied key n)) ∷ [])
    unfolding lookup insert
    count_in-tallied key zero h = (unfold inc64 in refl, refl)
    count_in-tallied key (suc n) h = (
      ap (λ o. inc64 (count_or_new o).n) (found key _) ∙ inc64-pos (suc n) h ∙ ap pos (omega arith),
      replaced key _ _,
    )

    -- The scope after some calls of the identity, with no list about.
    pub record Tally (named : Bytes) (n : ℕ) (w : World) : Type 0 where
      pub name : (w.scope_at i).name ≡ named
      pub calls : (w.scope_at i).calls ≡ tallied (key_of named op) n
      pub marks : (w.scope_at i).marks ≡ []
      pub list : w.allowlist ≡ none

    pub bumped-n :
        (w : World) (n : ℕ)
        → n < max_int64
        → Tally (w.scope_at i).name n w
        → (bumped (key_of (w.scope_at i).name op) (w.scope_at i)).n ≡ pos (suc n)
    unfolding bumped
    bumped-n w n h t =
        let key = key_of (w.scope_at i).name op in
        ap (λ l. (count_in key l).n) t.calls ∙ (count_in-tallied key n h).0

    Tally-decide :
        (w : World) (n : ℕ)
        → n < max_int64
        → Tally (w.scope_at i).name n w
        → Tally (w.scope_at i).name (suc n) (decide_and_report d env i none op open_now declaring w)
    unfolding bump_call bumped
    Tally-decide w n h t = record {
      name = ap (λ (s : Scope). s.name) at_scope;
      calls =
          ap (λ (s : Scope). s.calls) at_scope
          ∙ ap (λ m. (key, record { n = m; declared = c ∷ cs; reason = reason }) ∷ [])
              (count_in-tallied key n h).0;
      marks = ap (λ (s : Scope). s.marks) at_scope ∙ t.marks;
      list =
          ap (λ (u : World). u.allowlist) (decide-settled w t.list)
          ∙ (settled-scope_at key (bump_call i key w).0 w').1
          ∙ (Notes-note_declared i key (c ∷ cs) reason w').list
          ∙ t.list;
    }
      where
        key : ViolationKey
        key = key_of (w.scope_at i).name op

        w' : World
        w' = (bump_call i key w).1

        a : CallCount
        a = count_in key (tallied key n)

        one_entry :
            (let counted = count_in key (w.scope_at i).calls in
              insert key counted (w.scope_at i).calls ≡ (key, a) ∷ [])
        one_entry = ap (λ l. insert key (count_in key l) l) t.calls ∙ (count_in-tallied key n h).1

        w'-scope_at : w'.scope_at i ≡ record (w.scope_at i) { calls = (key, a) ∷ [] }
        w'-scope_at = put_scope-same i _ w ∙ ap (λ l. record (w.scope_at i) { calls = l }) one_entry

        at_scope :
            (decide_and_report d env i none op open_now declaring w).scope_at i
            ≡ record (w.scope_at i) {
              calls = (key, record a { declared = c ∷ cs; reason = reason }) ∷ [];
            }
        at_scope =
            ap (λ (u : World). u.scope_at i) (decide-settled w t.list)
            ∙ ap (λ (f : ℕ → Scope). f i) (settled-scope_at key (bump_call i key w).0 w').0
            ∙ noted-scope_at key a w' (ap (λ (s : Scope). s.calls) w'-scope_at)
            ∙ ap
                (λ (s : Scope). record s {
                  calls = (key, record a { declared = c ∷ cs; reason = reason }) ∷ [];
                })
                w'-scope_at

    -- The same, of a world in which the scope has the name `named`.
    pub Tally-next :
        (named : Bytes) (w : World) (n : ℕ)
        → n < max_int64
        → Tally named n w
        → Tally named (suc n) (decide_and_report d env i none op open_now declaring w)
    Tally-next named w n h t =
        subst (λ b. Tally b (suc n) (decide_and_report d env i none op open_now declaring w)) t.name
          (Tally-decide w n h (subst (λ b. Tally b n w) (sym t.name) t))
