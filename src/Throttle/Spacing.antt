-- ===== src/Throttle/Spacing.antt =====
-- throttle.go: how far apart the reports of a key are, and how many the snapshot counts.
use go_txnpure.Base.{
  if◌then◌else◌, length, ℤ, pos, leb_ℤ, max_int64, inc64, inc64-pos, nat_eq, Bytes, bytes_Eq,
  lookup, ℕ, suc, ◌+◌, ◌≤◌, ◌≡◌, refl, sym, Bool, true, false, Option, none, some, List, [], ◌∷◌,
  arith,
}
use mathlib.Core.Path.{subst}
use go_txnpure.Throttle.{ThrottleState, duration_sub}
use go_txnpure.Throttle.Keys.{Arrival, pass_all, times_of, flags_of, alone, pass_all-alone}

-- The times at which a report passed.
abbrev pub passed : List ℕ → List Bool → List ℕ
passed [] flags = []
passed (now ∷ times) [] = []
passed (now ∷ times) (go ∷ flags) = if go then now ∷ passed times flags else passed times flags

abbrev pub SpacedFrom : ℤ → ℕ → List ℕ → Type 0
SpacedFrom interval last [] = Unit
SpacedFrom interval last (now ∷ times) =
    (leb_ℤ interval (duration_sub now last) ≡ true) × SpacedFrom interval now times

-- Each time is at least the interval after the one in front of it.
abbrev pub Spaced : ℤ → List ℕ → Type 0
Spaced interval [] = Unit
Spaced interval (now ∷ times) = SpacedFrom interval now times

-- A window accounts for a number of reports: those that passed and those that it counts.
abbrev pub Accounts : ℕ → ℕ → Option ThrottleState → Type 0
Accounts total passes none = total ≡ 0
Accounts total passes (some st) = (n : ℕ) × (st.suppressed ≡ pos n) × (n + passes ≡ total)

alone-SpacedFrom :
    (interval : ℤ) (st : ThrottleState) (times : List ℕ)
    → SpacedFrom interval st.last_forwarded (passed times (alone interval (some st) times).0)
alone-SpacedFrom interval st [] = tt
alone-SpacedFrom interval st (now ∷ times) =
    at (leb_ℤ interval (duration_sub now st.last_forwarded)) refl
      (alone-SpacedFrom interval (record st { last_forwarded = now }) times)
      (alone-SpacedFrom interval (record st { suppressed = inc64 st.suppressed }) times)
  where
    at :
        (b : Bool)
        → leb_ℤ interval (duration_sub now st.last_forwarded) ≡ b
        → SpacedFrom interval now
            (passed times (alone interval (some (record st { last_forwarded = now })) times).0)
        → SpacedFrom interval st.last_forwarded (
            passed times
              (alone interval (some (record st { suppressed = inc64 st.suppressed })) times).0)
        → (let s : Bool × ThrottleState =
              (if b
                then (true, record st { last_forwarded = now })
                else (false, record st { suppressed = inc64 st.suppressed })) in
            SpacedFrom interval st.last_forwarded
              (passed (now ∷ times) (s.0 ∷ (alone interval (some s.1) times).0)))
    at true e p q = (e, p)
    at false e p q = q

Accounts-same :
    {t t' p p' : ℕ} (o : Option ThrottleState) → t ≡ t' → p ≡ p' → Accounts t p o → Accounts t' p' o
Accounts-same none e f h = omega (arith, e, h)
Accounts-same (some st) e f (n, s, h) = (n, s, omega (arith, e, f, h))

abbrev window : ℕ → ℕ → ThrottleState
window last n = record { last_forwarded = last; suppressed = pos n }

-- A window that starts with `n` counted reports, `p` having passed.
alone-Accounts :
    (interval : ℤ) (n p last : ℕ) (times : List ℕ)
    → n + length times ≤ max_int64
    → (let (flags, after) = alone interval (some (window last n)) times in
        Accounts (n + p + length times) (p + length (passed times flags)) after)
alone-Accounts interval n p last [] h = (n, refl, omega arith)
alone-Accounts interval n p last (now ∷ times) h =
    at (leb_ℤ interval (duration_sub now last))
      (alone-Accounts interval n (suc p) now times (omega (arith, h)))
      (alone-Accounts interval (n + 1) p last times (omega (arith, h)))
  where
    ended : ThrottleState → Option ThrottleState
    ended st = (alone interval (some st) times).1

    passes : ThrottleState → ℕ
    passes st = length (passed times (alone interval (some st) times).0)

    at :
        (b : Bool)
        → Accounts (n + suc p + length times) (suc p + passes (window now n)) (ended (window now n))
        → Accounts
            (n + 1 + p + length times)
            (p + passes (window last (n + 1)))
            (ended (window last (n + 1)))
        → (let s : Bool × ThrottleState =
              (if b
                then (true, window now n)
                else (false, record { last_forwarded = last; suppressed = inc64 (pos n) })) in
            Accounts
              (n + p + suc (length times))
              (p + length (passed (now ∷ times) (s.0 ∷ (alone interval (some s.1) times).0)))
              (alone interval (some s.1) times).1)
    at true on off = Accounts-same (ended (window now n)) (omega arith) (omega arith) on
    at false on off =
        rw (inc64-pos n (omega (arith, h)))
          (Accounts-same (ended (window last (n + 1))) (omega arith) (omega arith) off)

-- In a map that starts empty, the reports of a key that pass are at least the interval apart, and
-- its window counts exactly those that did not pass, if the interval is positive and there are
-- fewer than 2^63 reports.
pub pass_all-Spaced :
    (interval : ℤ) (arrivals : List Arrival) (k : Bytes)
    → leb_ℤ interval (pos 0) ≡ false
    → length (times_of k arrivals) ≤ max_int64
    → (let (flags, after) = pass_all interval [] arrivals in
        let times = times_of k arrivals in
        let passes = passed times (flags_of k arrivals flags) in
        Spaced interval passes × Accounts (length times) (length passes) (lookup k after))
unfolding lookup
pass_all-Spaced interval arrivals k h fits =
    subst
      (λ (r : List Bool × Option ThrottleState).
        Spaced interval (passed times r.0)
        × Accounts (length times) (length (passed times r.0)) r.1)
      (sym (pass_all-alone interval [] arrivals k h)) (fresh times fits)
  where
    times : List ℕ
    times = times_of k arrivals

    fresh :
        (ts : List ℕ)
        → length ts ≤ max_int64
        → (let r = alone interval none ts in
            Spaced interval (passed ts r.0) × Accounts (length ts) (length (passed ts r.0)) r.1)
    fresh [] fits = (tt, refl)
    fresh (now ∷ ts) fits = (
      alone-SpacedFrom interval (window now 0) ts,
      Accounts-same _ (omega arith) (omega arith)
          (alone-Accounts interval 0 1 now ts (omega (arith, fits))),
    )
