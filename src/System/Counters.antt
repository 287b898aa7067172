-- ===== src/System/Counters.antt =====
-- Which operations leave the open-transaction counters of every scope alone: all but those of the
-- session state machine and the start of a scope.
use go_txnpure.Base.{
  ◌==◌, if◌then◌else◌, ==_iff, Bool-cases, Option-cases, ℤ, nat_eq, Bytes, bytes_Eq, lookup, ℕ, ◌≡◌,
  refl, ap, ◌∙◌, fun_ext, ◌⊎◌, inl, inr, Bool, true, false, Option, List, [], ◌∷◌,
}
use go_txnpure.Allow.{report_stale_allow, bump_call, note_declared}
use go_txnpure.Check.{
  conclude, CheckConfig, Verdict, covered, declined, verdict, emit_violation, decide_and_report,
}
use go_txnpure.Check.Preserves.{Tolerant, VerdictKeeps, verdict-VerdictKeeps}
use go_txnpure.Identity.{Op, ViolationKey, key_Eq, key_of}
use go_txnpure.Report.{Report, StaleAllow}
use go_txnpure.State.{Env, Scope, World, Detector, put_scope, report}

abbrev pub counters : World → ℕ → ℤ
counters w i = (w.scope_at i).open_txs

pub record Keeps (w w' : World) : Type 0 where
  pub same : counters w' ≡ counters w
  pub fresh : w'.next_scope ≡ w.next_scope
  pub ended : (j : ℕ) → (w.scope_at j).finished ≡ true → (w'.scope_at j).finished ≡ true

pub Keeps-refl : (w : World) → Keeps w w
Keeps-refl w = record { same = refl; fresh = refl; ended = λ j h. h }

pub Keeps-trans : {u v w : World} → Keeps u v → Keeps v w → Keeps u w
Keeps-trans p q = record {
  same = q.same ∙ p.same;
  fresh = q.fresh ∙ p.fresh;
  ended = λ j h. q.ended j (p.ended j h);
}

pub Keeps-if : {w u v : World} (b : Bool) → Keeps w u → Keeps w v → Keeps w (if b then u else v)
Keeps-if true p q = p
Keeps-if false p q = q

-- A scope in the place of one that had not finished, or that has finished itself.
pub ended-put_scope :
    (i : ℕ) (s : Scope) (w : World)
    → ((w.scope_at i).finished ≡ true → s.finished ≡ true)
    → (j : ℕ) → (w.scope_at j).finished ≡ true
    → ((put_scope i s w).scope_at j).finished ≡ true
ended-put_scope i s w h j e = at_same (Bool-cases (i == j))
  where
    at_same :
        ((i == j) ≡ true) ⊎ ((i == j) ≡ false)
        → (if i == j then s else w.scope_at j).finished ≡ true
    at_same (inl hit) = rw hit (h (ap (λ k. (w.scope_at k).finished) ((==_iff i j).0 hit) ∙ e))
    at_same (inr miss) = rw miss e

pub Keeps-put_scope :
    (i : ℕ) (s : Scope) (w : World)
    → s.open_txs ≡ (w.scope_at i).open_txs
    → ((w.scope_at i).finished ≡ true → s.finished ≡ true)
    → Keeps w (put_scope i s w)
Keeps-put_scope i s w h stays = record {
  same = fun_ext (λ j. at_same j (Bool-cases (i == j)));
  fresh = refl;
  ended = ended-put_scope i s w stays;
}
  where
    at_same :
        (j : ℕ)
        → ((i == j) ≡ true) ⊎ ((i == j) ≡ false)
        → (if i == j then s else w.scope_at j).open_txs ≡ (w.scope_at j).open_txs
    at_same j (inl hit) = rw hit (h ∙ ap (counters w) ((==_iff i j).0 hit))
    at_same j (inr miss) = rw miss

pub Keeps-report : (env : Env) (r : Report) (w : World) → Keeps w (report env r w)
unfolding report
Keeps-report env r w = record { same = refl; fresh = refl; ended = λ j h. h }

pub Keeps-report_stale_allow :
    (env : Env) (s : StaleAllow) (w : World) → Keeps w (report_stale_allow env s w)
unfolding report_stale_allow
Keeps-report_stale_allow env s w = record { same = refl; fresh = refl; ended = λ j h. h }

Keeps-bump_call : (i : ℕ) (key : ViolationKey) (w : World) → Keeps w (bump_call i key w).1
unfolding bump_call
Keeps-bump_call i key w = Keeps-put_scope i _ w refl (λ e. e)

Keeps-note_declared :
    (i : ℕ) (key : ViolationKey) (counts : List ℤ) (reason : Bytes) (w : World)
    → Keeps w (note_declared i key counts reason w)
unfolding note_declared
Keeps-note_declared i key [] reason w = Keeps-refl w
Keeps-note_declared i key (c ∷ counts) reason w =
    elim (Option-cases (lookup key (w.scope_at i).calls)) [
      | inl e ↦ rw (e, note_declared) (Keeps-refl w)
      | inr (a, e) ↦ rw (e, note_declared) (Keeps-put_scope i _ w refl (λ e. e))
    ]

Keeps-Tolerant : Tolerant Keeps
Keeps-Tolerant = record {
  same = Keeps-refl;
  chain = λ u v w p q. Keeps-trans p q;
  note = Keeps-note_declared;
  mark = λ m a w. record { same = refl; fresh = refl; ended = λ j h. h };
  list = λ a w. record { same = refl; fresh = refl; ended = λ j h. h };
}

pub Keeps-decide_and_report :
    (d : Detector) (env : Env) (i : ℕ) (mark : Option ℕ) (op : Op) (open_now : ℤ)
    (cfg : CheckConfig) (w : World)
    → Keeps w (decide_and_report d env i mark op open_now cfg w)
unfolding decide_and_report emit_violation
Keeps-decide_and_report d env i mark op open_now cfg w = Keeps-trans (Keeps-bump_call i key w) (
    concluded (verdict i mark op k cfg w')
      (verdict-VerdictKeeps Keeps Keeps-Tolerant i mark op k cfg w'))
  where
    key : ViolationKey
    key = key_of (w.scope_at i).name op

    k : ℤ
    k = (bump_call i key w).0

    w' : World
    w' = (bump_call i key w).1

    concluded :
        (v : Verdict)
        → VerdictKeeps Keeps w' v
        → Keeps w' (conclude d env i op open_now k cfg.attrs v)
    concluded (covered u) p = p
    concluded (declined counts u) p = Keeps-trans p (Keeps-report env _ u)
