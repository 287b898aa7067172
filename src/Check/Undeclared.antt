-- ===== src/Check/Undeclared.antt =====
-- check.go and allow.go: whether the total of a call site with declared counts is reported.
use go_txnpure.Base.{
  if◌then◌else◌, ℤ, pos, max_int64, nat_eq, Bytes, bytes_Eq, ℕ, zero, suc, ◌≤◌, ◌<◌, ◌≡◌, refl, sym,
  ap, ◌∙◌, Bool, true, false, not, ◌&&◌, ◌||◌, none, List, [], ◌∷◌, ◌++◌, arith,
}
use mathlib.Core.List.{append-nil}
use mathlib.Core.Path.{subst, ap₂}
use go_txnpure.Allow.{
  count_or_new, falls_short, shortfalls, stale_calls, stale_marks, declared_keys, stale_call,
  report_all, report_stale_allow, report_call_shortfalls,
}
use go_txnpure.Allow.Counts.{contains_count, covers_calls}
use go_txnpure.Allow.Coverage.{reaches, covers_calls-reaches}
use go_txnpure.Check.{decide_and_report, make_violation}
use go_txnpure.Check.Numbering.{repeat}
use go_txnpure.Check.Reported.{reported, decide_and_report-reported}
use go_txnpure.Check.Tiers.{Tier, tiers, list_tier}
use go_txnpure.Check.Totals.{declaring, tallied, Tally, bumped-n, Tally-next, found}
use go_txnpure.Identity.{Op, key_Eq, key_of, sort_keys}
use go_txnpure.Report.{Report, StaleAllow, ScopeAttr, violation, stale_allow}
use go_txnpure.Reporter.{Reporter, notify}
use go_txnpure.State.{Env, Scope, World, Detector, AllowMark, report}

module _ (reason : Bytes) (c : ℤ) (cs : List ℤ) (attrs : List ScopeAttr) (d : Detector) (env : Env)
    (i : ℕ) (op : Op) (open_now : ℤ) where
  -- Tally of this call site.
  abbrev Holds : Bytes → ℕ → World → Type 0
  Holds = Tally reason c cs attrs d env i op open_now

  abbrev pub calls_of : ℕ → World → World
  calls_of = repeat d env i none op open_now (declaring reason c cs attrs)

  Tally-calls_of :
      (w : World) (n : ℕ)
      → n ≤ max_int64
      → Holds (w.scope_at i).name 0 w
      → Holds (w.scope_at i).name n (calls_of n w)
  Tally-calls_of w zero h t = t
  Tally-calls_of w (suc n) h t =
      Tally-next reason c cs attrs d env i op open_now (w.scope_at i).name (calls_of n w) n
        (omega (arith, h)) (Tally-calls_of w n (omega (arith, h)) t)

  -- The violation of the call behind `n` others.
  abbrev pub nth_violation : ℕ → World → Report
  nth_violation n w =
      violation (make_violation d env (w.scope_at i) op open_now (pos (suc n)) (c ∷ cs) attrs)

  last-reported :
      (named : Bytes) (w : World) (n : ℕ)
      → n < max_int64
      → Holds named n w
      → (decide_and_report d env i none op open_now (declaring reason c cs attrs) w).reporters ≡ (
          if reaches (c ∷ cs) (pos (suc n))
          then w.reporters
          else notify env.clock (nth_violation n w) w.reporters)
  last-reported named w n h t =
      decide_and_report-reported d env i none op open_now (declaring reason c cs attrs) w
      ∙ ap (λ k. told k (tiers w i none op k (declaring reason c cs attrs)))
          (bumped-n reason c cs attrs d env i op open_now w n h own)
      ∙ ap
          (λ a.
            told (pos (suc n))
              ((c ∷ cs, pos (suc n)) ∷ list_tier a (w.scope_at i).name op (pos (suc n))))
          t.list
      ∙ at (covers_calls (c ∷ cs) (pos (suc n))) (reaches (c ∷ cs) (pos (suc n)))
          (covers_calls-reaches (c ∷ cs) n)
    where
      own : Holds (w.scope_at i).name n w
      own = subst (λ b. Holds b n w) (sym t.name) t

      told : ℤ → List Tier → List Reporter
      told k ts = reported d env i op open_now k attrs ts w

      at :
          (b b' : Bool)
          → b ≡ b'
          → (if b || false
              then w.reporters
              else notify env.clock
                  (violation (
                    make_violation d env
                      (w.scope_at i)
                      op
                      open_now
                      (pos (suc n))
                      ((c ∷ cs) ++ [])
                      attrs))
                  w.reporters)
            ≡ (if b' then w.reporters else notify env.clock (nth_violation n w) w.reporters)
      at true true e = refl
      at true false e = cc
      at false true e = cc
      at false false e =
          ap
            (λ l.
              notify env.clock
                (violation (make_violation d env (w.scope_at i) op open_now (pos (suc n)) l attrs))
                w.reporters)
            (append-nil (c ∷ cs))

  -- The shortfall of the call site, with its total.
  abbrev pub shortfall : Bytes → ℕ → StaleAllow
  shortfall named n = record {
    scope = named;
    op = op;
    reason = reason;
    calls = pos n;
    allowed_calls = c ∷ cs;
  }

  shortfalls-tallied :
      (s : Scope) (mark_at : ℕ → AllowMark) (n : ℕ)
      → s.calls ≡ tallied reason c cs attrs (key_of s.name op) (suc n)
      → s.marks ≡ []
      → shortfalls s mark_at
        ≡ (if falls_short (c ∷ cs) (pos (suc n)) then shortfall s.name (suc n) ∷ [] else [])
  unfolding shortfalls stale_calls stale_marks declared_keys sort_keys
  shortfalls-tallied s mark_at n h m =
      ap (λ l. shortfalls (record s { calls = l }) mark_at) h
      ∙ ap
          (λ l.
            shortfalls
              (record s { calls = tallied reason c cs attrs (key_of s.name op) (suc n); marks = l })
              mark_at)
          m
      ∙ ap
          (λ o.
            let e = count_or_new o in
            (if falls_short e.declared e.n then stale_call s (key_of s.name op) e ∷ [] else [])
            ++ [])
          (found reason c cs attrs d env i op open_now (key_of s.name op) _)
      ∙ at (falls_short (c ∷ cs) (pos (suc n)))
    where
      at :
          (b : Bool)
          → (if b then shortfall s.name (suc n) ∷ [] else []) ++ []
            ≡ (if b then shortfall s.name (suc n) ∷ [] else [])
      at true = refl
      at false = refl

  falls_short-reaches :
      (n : ℕ)
      → falls_short (c ∷ cs) (pos (suc n))
        ≡ (reaches (c ∷ cs) (pos (suc n)) && not (contains_count (c ∷ cs) (pos (suc n))))
  unfolding falls_short covers_calls
  falls_short-reaches n =
      ap (λ b. b && not (contains_count (c ∷ cs) (pos (suc n)))) (covers_calls-reaches (c ∷ cs) n)

  end-reported :
      (named : Bytes) (later : Env) (w : World) (n : ℕ)
      → Holds named (suc n) w
      → (report_call_shortfalls later i w).reporters ≡ (
          if reaches (c ∷ cs) (pos (suc n)) && not (contains_count (c ∷ cs) (pos (suc n)))
          then notify later.clock (stale_allow (shortfall named (suc n))) w.reporters
          else w.reporters)
  unfolding report_call_shortfalls report_all report_stale_allow report
  end-reported named later w n t =
      ap (λ stale. (report_all later stale w).reporters)
        (shortfalls-tallied (w.scope_at i) w.mark_at n
          (subst (λ b. (w.scope_at i).calls ≡ tallied reason c cs attrs (key_of b op) (suc n))
            (sym t.name) t.calls)
          t.marks)
      ∙ ap
          (λ (r : Bytes × Bool).
            (report_all later (if r.1 then shortfall r.0 (suc n) ∷ [] else []) w).reporters)
          (ap₂ (λ a b. (a, b)) t.name (falls_short-reaches n))
      ∙ at (reaches (c ∷ cs) (pos (suc n)) && not (contains_count (c ∷ cs) (pos (suc n))))
    where
      at :
          (b : Bool)
          → (report_all later (if b then shortfall named (suc n) ∷ [] else []) w).reporters ≡ (
              if b
              then notify later.clock (stale_allow (shortfall named (suc n))) w.reporters
              else w.reporters)
      at true = refl
      at false = refl

  -- What the reporters are told by the last of `n + 1` calls, and by the end of the scope behind it.
  pub record Told (n : ℕ) (later : Env) (w : World) : Type 0 where
    pub last : (calls_of (suc n) w).reporters ≡ (
        if reaches (c ∷ cs) (pos (suc n))
        then (calls_of n w).reporters
        else notify env.clock (nth_violation n (calls_of n w)) (calls_of n w).reporters)
    pub at_end : (report_call_shortfalls later i (calls_of (suc n) w)).reporters ≡ (
        if reaches (c ∷ cs) (pos (suc n)) && not (contains_count (c ∷ cs) (pos (suc n)))
        then notify later.clock
            (stale_allow (shortfall (w.scope_at i).name (suc n)))
            (calls_of (suc n) w).reporters
        else (calls_of (suc n) w).reporters)

  -- A call site with declared counts runs once or more in a scope that has counted nothing and has no
  -- counted region, without a list and with a transaction open. The last of the calls is reported, with
  -- its number, exactly if no declared count is as large as the total. The end of the scope reports the
  -- declaration, with the total, exactly if some declared count is as large as the total but none is
  -- equal to it. So a total that is not declared shows in one of the two, and one that is in neither.
  -- There are fewer than 2^63 calls.
  pub calls_of-Told :
      (n : ℕ) (later : Env) (w : World)
      → n < max_int64
      → w.allowlist ≡ none
      → (w.scope_at i).calls ≡ []
      → (w.scope_at i).marks ≡ []
      → Told n later w
  calls_of-Told n later w h unlisted uncalled unmarked =
      let fresh : Holds (w.scope_at i).name 0 w = record {
        name = refl;
        calls = uncalled;
        marks = unmarked;
        list = unlisted;
      } in
      record {
        last =
            last-reported (w.scope_at i).name (calls_of n w) n h
              (Tally-calls_of w n (omega (arith, h)) fresh);
        at_end =
            end-reported (w.scope_at i).name later (calls_of (suc n) w) n
              (Tally-calls_of w (suc n) (omega (arith, h)) fresh);
      }
