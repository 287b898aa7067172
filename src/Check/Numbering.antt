-- ===== src/Check/Numbering.antt =====
-- check.go: the number that each of a run of equal calls has.
use go_txnpure.Base.{
  ==_iff, ℤ, pos, max_int64, inc64, inc64-pos, nat_eq, bytes_Eq, ℕ, zero, suc, ◌+◌, ◌≤◌, ◌<◌, ◌≡◌,
  refl, ap, ◌∙◌, Option, arith,
}
use go_txnpure.Allow.{bump_call, bumped}
use go_txnpure.Check.{
  CheckConfig, Verdict, covered, declined, verdict, conclude, decide_and_report, emit_violation,
}
use go_txnpure.Check.Calls.{calls_made, decide_and_report-calls_made}
use go_txnpure.Check.Preserves.{Tolerant, VerdictKeeps, verdict-VerdictKeeps}
use go_txnpure.Check.Reported.{reported, decide_and_report-reported}
use go_txnpure.Check.Tiers.{tiers, Notes-bump_call, Notes-note_declared}
use go_txnpure.Identity.{Op, ViolationKey, key_eq_iff, key_of}
use go_txnpure.State.{Env, World, Detector, report}

-- The same call `n` times, one after the other.
abbrev pub repeat : Detector → Env → ℕ → Option ℕ → Op → ℤ → CheckConfig → ℕ → World → World
repeat d env i mark op open_now cfg zero w = w
repeat d env i mark op open_now cfg (suc n) w =
    decide_and_report d env i mark op open_now cfg (repeat d env i mark op open_now cfg n w)

record SameNames (w w' : World) : Type 0 where
  names : (j : ℕ) → (w'.scope_at j).name ≡ (w.scope_at j).name

SameNames-Tolerant : Tolerant SameNames
SameNames-Tolerant = record {
  same = λ w. record { names = λ j. refl };
  chain = λ u v w p q. record { names = λ j. q.names j ∙ p.names j };
  note = λ i key counts reason w. record {
    names = (Notes-note_declared i key counts reason w).looks.names;
  };
  mark = λ m a w. record { names = λ j. refl };
  list = λ a w. record { names = λ j. refl };
}

decide_and_report-name :
    (d : Detector) (env : Env) (i : ℕ) (mark : Option ℕ) (op : Op) (open_now : ℤ)
    (cfg : CheckConfig) (w : World) (j : ℕ)
    → ((decide_and_report d env i mark op open_now cfg w).scope_at j).name ≡ (w.scope_at j).name
unfolding decide_and_report emit_violation report
decide_and_report-name d env i mark op open_now cfg w j =
    concluded (verdict i mark op k cfg w')
      (verdict-VerdictKeeps SameNames SameNames-Tolerant i mark op k cfg w')
    ∙ (Notes-bump_call i own w).looks.names j
  where
    own : ViolationKey
    own = key_of (w.scope_at i).name op

    k : ℤ
    k = (bump_call i own w).0

    w' : World
    w' = (bump_call i own w).1

    concluded :
        (v : Verdict)
        → VerdictKeeps SameNames w' v
        → ((conclude d env i op open_now k cfg.attrs v).scope_at j).name ≡ (w'.scope_at j).name
    concluded (covered u) p = p.names j
    concluded (declined counts u) p = p.names j

module _ (d : Detector) (env : Env) (i : ℕ) (mark : Option ℕ) (op : Op) (open_now : ℤ)
    (cfg : CheckConfig) (w : World) where
  repeat-name :
      (n : ℕ) → ((repeat d env i mark op open_now cfg n w).scope_at i).name ≡ (w.scope_at i).name
  repeat-name zero = refl
  repeat-name (suc n) = decide_and_report-name d env i mark op open_now cfg _ i ∙ repeat-name n

  repeat-calls_made :
      (n : ℕ)
      → n ≤ max_int64
      → calls_made (key_of (w.scope_at i).name op) (w.scope_at i) ≡ pos 0
      → calls_made
          (key_of (w.scope_at i).name op)
          ((repeat d env i mark op open_now cfg n w).scope_at i)
        ≡ pos n
  repeat-calls_made zero fits h = h
  repeat-calls_made (suc n) fits h =
      decide_and_report-calls_made d env i mark op open_now cfg _ _ i
      ∙ rw
          (
            (==_iff i i).1 refl,
            repeat-name n,
            (key_eq_iff (key_of (w.scope_at i).name op) _).1 refl,
            repeat-calls_made n (omega (arith, fits)) h,
            inc64-pos n (omega (arith, fits)),
          )
          (ap pos (omega arith))

  -- Of a run of equal calls in a scope that has counted none of them, the call behind `n` others
  -- has the number `n + 1`, if `n` is less than 2^63 - 1: the tiers that count the calls of its
  -- identity are asked with it, and a violation carries it.
  pub repeat-reported :
      (n : ℕ)
      → n < max_int64
      → calls_made (key_of (w.scope_at i).name op) (w.scope_at i) ≡ pos 0
      → (let u = repeat d env i mark op open_now cfg n w in
          (decide_and_report d env i mark op open_now cfg u).reporters
          ≡ reported d env i op open_now
              (pos (n + 1))
              cfg.attrs
              (tiers u i mark op (pos (n + 1)) cfg)
              u)
  unfolding bumped
  repeat-reported n fits h =
      let u = repeat d env i mark op open_now cfg n w in
      decide_and_report-reported d env i mark op open_now cfg u
      ∙ ap (λ (k : ℤ). reported d env i op open_now k cfg.attrs (tiers u i mark op k cfg) u)
          (ap inc64 (
              ap (λ named. calls_made (key_of named op) (u.scope_at i)) (repeat-name n)
              ∙ repeat-calls_made n (omega (arith, fits)) h)
            ∙ inc64-pos n fits)
