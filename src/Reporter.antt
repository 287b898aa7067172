-- ===== src/Reporter.antt =====
-- The reporters: the collecting, the logging, the baseline and the throttling one of the library, of
-- which the last two wrap another one, and an application's own, which implements the optional
-- interfaces it likes and keeps what it gets. Each reporter of a detector is an object of its own.
pub mod Filter
pub mod Required
pub mod Arrivals
use go_txnpure.Base.{
  if◌then◌else◌, nat_eq, bytes_Eq, ℕ, Bool, true, false, Option, none, some, List, [], ◌∷◌, ◌++◌,
}
use go_txnpure.Baseline.{Baseline, covers}
use go_txnpure.Report.{
  Violation, violation_key, UnscopedTx, UnscopedCheck, StaleAllow, NestedScope, LeakedTx, Report,
  violation, unscoped_tx, unscoped_check, nested_scope, leaked_tx, stale_allow,
}
use go_txnpure.Slog.{LogRecord, log_record}
use go_txnpure.Throttle.{
  Throttle, pass_violation, pass_unscoped_tx, pass_unscoped_check, pass_stale_allow,
  pass_nested_scope, pass_leaked_tx,
}

-- What a CollectingReporter holds.
pub record Collected : Type 0 where
  pub violations : List Violation
  pub unscoped : List UnscopedTx
  pub unscoped_checks : List UnscopedCheck
  pub nested : List NestedScope
  pub leaked : List LeakedTx
  pub stale_allows : List StaleAllow

unfoldable pub new_collecting : Collected
new_collecting = record {
  violations = [];
  unscoped = [];
  unscoped_checks = [];
  nested = [];
  leaked = [];
  stale_allows = [];
}

-- The Report methods of a CollectingReporter.
unfoldable pub collect : Collected → Report → Collected
collect c (violation v) = record c { violations = c.violations ++ v ∷ [] }
collect c (unscoped_tx u) = record c { unscoped = c.unscoped ++ u ∷ [] }
collect c (unscoped_check u) = record c { unscoped_checks = c.unscoped_checks ++ u ∷ [] }
collect c (nested_scope n) = record c { nested = c.nested ++ n ∷ [] }
collect c (leaked_tx l) = record c { leaked = c.leaked ++ l ∷ [] }
collect c (stale_allow s) = record c { stale_allows = c.stale_allows ++ s ∷ [] }

-- The optional interfaces that an application's reporter implements.
pub record Extensions : Type 0 where
  pub unscoped_txs : Bool
  pub unscoped_checks : Bool
  pub nested_scopes : Bool
  pub leaked_txs : Bool
  pub stale_allows : Bool

pub data Reporter : Type 0 where
  collecting : Collected → Reporter
  custom : Extensions → List Report → Reporter
  logging : List LogRecord → Reporter
  baseline : Option Baseline → Reporter → Reporter
  throttling : Throttle → Reporter → Reporter

abbrev extends : Extensions → Report → Bool
extends x (violation v) = true
extends x (unscoped_tx u) = x.unscoped_txs
extends x (unscoped_check u) = x.unscoped_checks
extends x (nested_scope n) = x.nested_scopes
extends x (leaked_tx l) = x.leaked_txs
extends x (stale_allow s) = x.stale_allows

-- The type assertion in front of a report. The library's own reporters implement every interface.
unfoldable pub implements : Reporter → Report → Bool
implements (custom x received) r = extends x r
implements (collecting c) r = true
implements (logging records) r = true
implements (baseline b next) r = true
implements (throttling t next) r = true

-- A baselined violation is swallowed.
abbrev pub judge : Option Baseline → Violation → Bool × Option Baseline
judge none v = (false, none)
judge (some b) v = let (known, b') = covers b (violation_key v) in (known, some b')

-- The decision of the throttle method for a report.
unfoldable pub pass_report : Throttle → ℕ → Report → Bool × Throttle
unfolding pass_violation pass_unscoped_tx pass_unscoped_check pass_stale_allow pass_nested_scope
    pass_leaked_tx
pass_report t now (violation v) = pass_violation t now v
pass_report t now (unscoped_tx u) = pass_unscoped_tx t now u
pass_report t now (unscoped_check u) = pass_unscoped_check t now u
pass_report t now (nested_scope n) = pass_nested_scope t now n
pass_report t now (leaked_tx l) = pass_leaked_tx t now l
pass_report t now (stale_allow s) = pass_stale_allow t now s

-- What the wrapped reporter `next` becomes, `told` if the report goes on to it.
abbrev pub choose {ℓ} : {A : Type ℓ} → Bool → A → A → A
choose true told kept = told
choose false told kept = kept

-- BaselineReporter: only violations are filtered, and the others are forwarded where `next` takes
-- them.
abbrev pub through_baseline : Option Baseline → Reporter → Reporter → Report → Reporter
through_baseline b next told (violation v) =
    let (known, b') = judge b v in baseline b' (choose known next told)
through_baseline b next told r = baseline b (choose (implements next r) told next)

-- ThrottlingReporter: nothing happens at all where `next` does not take the report.
abbrev pub through_throttle : Throttle → ℕ → Reporter → Reporter → Report → Reporter
through_throttle t now next told r =
    if implements next r
    then (let (go, t') = pass_report t now r in throttling t' (choose go told next))
    else throttling t next

-- The method that takes the report; `now` is what the clock of a throttle reads.
unfoldable pub receive : ℕ → Reporter → Report → Reporter
unfolding collect implements pass_report log_record
receive now (collecting c) r = collecting (collect c r)
receive now (logging records) r = logging (records ++ log_record r ∷ [])
receive now (custom x received) r = custom x (received ++ r ∷ [])
receive now (baseline b next) r = through_baseline b next (receive now next r) r
receive now (throttling t next) r = through_throttle t now next (receive now next r) r

-- The loop over the reporters of a detector.
unfoldable pub notify : ℕ → Report → List Reporter → List Reporter
unfolding receive
notify now r [] = []
notify now r (x ∷ xs) = choose (implements x r) (receive now x r) x ∷ notify now r xs
