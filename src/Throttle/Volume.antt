-- ===== src/Throttle/Volume.antt =====
-- throttle.go: what is suppressed is counted, so the volume of the reports can be recovered.
use go_txnpure.Base.{
  if◌then◌else◌, length, ℤ, max_int64, nat_eq, Bytes, bytes_eq, bytes_Eq, ℕ, ◌+◌, ◌≤◌, ◌≡◌, refl,
  sym, ap, Bool, true, false, List, [], ◌∷◌, ◌++◌, arith,
}
use mathlib.Core.Path.{subst}
use go_txnpure.Identity.{identity_key}
use go_txnpure.Report.{Violation, violation_key, violation}
use go_txnpure.Reporter.{
  Collected, new_collecting, Reporter, collecting, throttling, collect, receive, choose,
}
use go_txnpure.Throttle.{
  Windows, Throttle, new_throttle, pass, pass_violation, suppressed_violations,
}
use go_txnpure.Throttle.Counted.{
  at_key, at_key_zero, held_back, volume, volume-snapshot, AllWithin, Step, Step-pass,
}

-- Violations that arrive at a reporter, each with the time at which it comes.
abbrev pub receive_timed : Reporter → List (ℕ × Violation) → Reporter
receive_timed x [] = x
receive_timed x ((now, v) ∷ arrivals) = receive_timed (receive now x (violation v)) arrivals

abbrev pub identity_of : Violation → Bytes
identity_of v = identity_key (violation_key v)

-- How many have the identity whose text is `k`.
abbrev pub how_many : Bytes → List Violation → ℕ
how_many k [] = 0
how_many k (v ∷ vs) = at_key (bytes_eq (identity_of v) k) 1 + how_many k vs

abbrev pub violations_in : List (ℕ × Violation) → List Violation
violations_in [] = []
violations_in ((now, v) ∷ arrivals) = v ∷ violations_in arrivals

how_many-append :
    (k : Bytes) (vs ws : List Violation) → how_many k (vs ++ ws) ≡ how_many k vs + how_many k ws
how_many-append k [] ws = omega arith
how_many-append k (v ∷ vs) ws = omega (arith, how_many-append k vs ws)

record Runs (t : Throttle) (c : Collected) (arrivals : List (ℕ × Violation)) (x : Reporter)
    : Type 0 where
  after : Throttle
  seen : Collected
  is_after : x ≡ throttling after (collecting seen)
  kept :
      (k : Bytes)
      → how_many k seen.violations + held_back k after.violations
        ≡ how_many k c.violations + held_back k t.violations + how_many k (violations_in arrivals)

-- One report, which goes on to the collecting reporter or not.
forwarded : Bool → Collected → Violation → Collected
forwarded go c v = if go then collect c (violation v) else c

receive-forwarded :
    (now : ℕ) (t : Throttle) (c : Collected) (v : Violation)
    → receive now (throttling t (collecting c)) (violation v) ≡ (
        let (go, m) = pass t.interval now t.violations (identity_of v) 0 in
        throttling (record t { violations = m }) (collecting (forwarded go c v)))
unfolding receive pass_violation forwarded
receive-forwarded now t c v = ap (throttling (record t { violations = r.1 })) (at r.0)
  where
    r : Bool × Windows
    r = pass t.interval now t.violations (identity_of v) 0

    at :
        (go : Bool)
        → choose go (collecting (record c { violations = c.violations ++ v ∷ [] })) (collecting c)
          ≡ collecting (forwarded go c v)
    at true = refl
    at false = refl

how_many-forwarded :
    (k : Bytes) (go : Bool) (c : Collected) (v : Violation)
    → how_many k (forwarded go c v).violations
      ≡ how_many k c.violations + at_key (bytes_eq (identity_of v) k) (if go then 1 else 0)
unfolding forwarded collect
how_many-forwarded k true c v = omega (arith, how_many-append k c.violations (v ∷ []))
how_many-forwarded k false c v = omega (arith, at_key_zero (bytes_eq (identity_of v) k))

Runs-next :
    (t : Throttle) (c : Collected) (n now : ℕ) (v : Violation) (arrivals : List (ℕ × Violation))
    (r : Bool × Windows) (x : Reporter)
    → Step n t.violations (identity_of v) r
    → Runs (record t { violations = r.1 }) (forwarded r.0 c v) arrivals x
    → Runs t c ((now, v) ∷ arrivals) x
Runs-next t c n now v arrivals r x s rest = record {
  after = rest.after;
  seen = rest.seen;
  is_after = rest.is_after;
  kept = λ k. omega (arith, rest.kept k, how_many-forwarded k r.0 c v, s.counted k);
}

receive_timed-Runs :
    (t : Throttle) (c : Collected) (n : ℕ) (arrivals : List (ℕ × Violation))
    → n + length arrivals ≤ max_int64
    → AllWithin n t.violations
    → Runs t c arrivals (receive_timed (throttling t (collecting c)) arrivals)
receive_timed-Runs t c n [] fits ws = record {
  after = t;
  seen = c;
  is_after = refl;
  kept = λ k. omega arith;
}
receive_timed-Runs t c n ((now, v) ∷ arrivals) fits ws =
    let r = pass t.interval now t.violations (identity_of v) 0 in
    let s = Step-pass t.interval n now t.violations (identity_of v) (omega (arith, fits)) ws in
    Runs-next t c n now v arrivals r _ s (
      subst
        (λ x.
          Runs (record t { violations = r.1 }) (forwarded r.0 c v) arrivals
            (receive_timed x arrivals))
        (sym (receive-forwarded now t c v))
        (receive_timed-Runs (record t { violations = r.1 }) (forwarded r.0 c v) (n + 1) arrivals
          (omega (arith, fits)) s.within))

-- What a throttle in front of a collecting reporter becomes.
pub record Recovered (arrivals : List (ℕ × Violation)) (x : Reporter) : Type 0 where
  pub after : Throttle
  pub seen : Collected
  pub is_after : x ≡ throttling after (collecting seen)
  pub recovers :
      (k : Bytes)
      → how_many k seen.violations + volume k (suppressed_violations after)
        ≡ how_many k (violations_in arrivals)

-- Whatever the interval is and whenever the violations come: for each identity those that reach the
-- collecting reporter behind a new throttle, and those that SuppressedViolations counts, are together
-- those that have arrived, if these are fewer than 2^63.
pub receive_timed-Recovered :
    (interval : ℤ) (arrivals : List (ℕ × Violation))
    → length arrivals ≤ max_int64
    → Recovered arrivals
        (receive_timed (throttling (new_throttle interval) (collecting new_collecting)) arrivals)
unfolding suppressed_violations new_throttle new_collecting
receive_timed-Recovered interval arrivals fits =
    let r =
      receive_timed-Runs (new_throttle interval) new_collecting 0 arrivals (omega (arith, fits))
        tt in
    record {
      after = r.after;
      seen = r.seen;
      is_after = r.is_after;
      recovers = λ k. omega (arith, r.kept k, volume-snapshot k r.after.violations);
    }
