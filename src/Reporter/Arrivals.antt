-- ===== src/Reporter/Arrivals.antt =====
-- reporter.go: what the collecting and the logging reporter make of the reports that arrive.
use go_txnpure.Base.{
  if◌then◌else◌, ℤ, nat_eq, Bytes, bytes_Eq, ℕ, ◌≡◌, refl, sym, ap, ◌∙◌, Bool, true, false, Option,
  none, some, List, [], ◌∷◌, ◌++◌, map,
}
use mathlib.Core.List.{append_assoc, append-nil}
use go_txnpure.Report.Text.{violation_text}
use go_txnpure.Report.{
  Violation, UnscopedTx, UnscopedCheck, StaleAllow, NestedScope, LeakedTx, Report, violation,
  unscoped_tx, unscoped_check, nested_scope, leaked_tx, stale_allow,
}
use go_txnpure.Reporter.{Collected, new_collecting, collect, Reporter, collecting, logging, receive}
use go_txnpure.Reporter.Required.{
  unscoped_tx_text, unscoped_check_text, nested_scope_text, leaked_tx_text, stale_allow_text,
  require_no_violations, require_no_unscoped_txs, require_no_unscoped_checks,
  require_no_nested_scopes, require_no_leaked_txs, require_no_stale_allows, reset,
}
use go_txnpure.Slog.{
  Level, warn, error, LogRecord, log_record, log_violation, log_stale_allow, stale_record,
}

abbrev pub receive_all : ℕ → Reporter → List Report → Reporter
receive_all now x [] = x
receive_all now x (r ∷ rs) = receive_all now (receive now x r) rs

-- The reports of each kind, in their order.
abbrev pub pick {ℓ} : {A : Type ℓ} → (Report → Option A) → List Report → List A
pick f [] = []
pick f (r ∷ rs) = elim (f r) [ none ↦ pick f rs | some a ↦ a ∷ pick f rs ]

abbrev pub as_violation : Report → Option Violation
as_violation (violation v) = some v
as_violation _ = none

abbrev pub as_unscoped_tx : Report → Option UnscopedTx
as_unscoped_tx (unscoped_tx u) = some u
as_unscoped_tx _ = none

abbrev pub as_unscoped_check : Report → Option UnscopedCheck
as_unscoped_check (unscoped_check u) = some u
as_unscoped_check _ = none

abbrev pub as_nested_scope : Report → Option NestedScope
as_nested_scope (nested_scope n) = some n
as_nested_scope _ = none

abbrev pub as_leaked_tx : Report → Option LeakedTx
as_leaked_tx (leaked_tx l) = some l
as_leaked_tx _ = none

abbrev pub as_stale_allow : Report → Option StaleAllow
as_stale_allow (stale_allow s) = some s
as_stale_allow _ = none

-- What is collected behind `c`.
abbrev pub extended : Collected → List Report → Collected
extended c rs = record {
  violations = c.violations ++ pick as_violation rs;
  unscoped = c.unscoped ++ pick as_unscoped_tx rs;
  unscoped_checks = c.unscoped_checks ++ pick as_unscoped_check rs;
  nested = c.nested ++ pick as_nested_scope rs;
  leaked = c.leaked ++ pick as_leaked_tx rs;
  stale_allows = c.stale_allows ++ pick as_stale_allow rs;
}

receive_all-collecting :
    (now : ℕ) (c : Collected) (rs : List Report)
    → receive_all now (collecting c) rs ≡ collecting (extended c rs)
unfolding receive collect
receive_all-collecting now c [] = simp append-nil
receive_all-collecting now c (violation v ∷ rs) =
    receive_all-collecting now _ rs
    ∙ ap (λ l. collecting (record (extended c rs) { violations = l }))
        (append_assoc c.violations _ _)
receive_all-collecting now c (unscoped_tx u ∷ rs) =
    receive_all-collecting now _ rs
    ∙ ap (λ l. collecting (record (extended c rs) { unscoped = l })) (append_assoc c.unscoped _ _)
receive_all-collecting now c (unscoped_check u ∷ rs) =
    receive_all-collecting now _ rs
    ∙ ap (λ l. collecting (record (extended c rs) { unscoped_checks = l }))
        (append_assoc c.unscoped_checks _ _)
receive_all-collecting now c (nested_scope n ∷ rs) =
    receive_all-collecting now _ rs
    ∙ ap (λ l. collecting (record (extended c rs) { nested = l })) (append_assoc c.nested _ _)
receive_all-collecting now c (leaked_tx l ∷ rs) =
    receive_all-collecting now _ rs
    ∙ ap (λ l. collecting (record (extended c rs) { leaked = l })) (append_assoc c.leaked _ _)
receive_all-collecting now c (stale_allow s ∷ rs) =
    receive_all-collecting now _ rs
    ∙ ap (λ l. collecting (record (extended c rs) { stale_allows = l }))
        (append_assoc c.stale_allows _ _)

-- The messages of the six helpers, by the reports that arrived.
pub record Messages (quote : Bytes → Bytes) (rs : List Report) (x : Reporter) : Type 0 where
  pub held : Collected
  pub is_held : x ≡ collecting held
  pub for_violations :
      require_no_violations quote held ≡ map (violation_text quote) (pick as_violation rs)
  pub for_unscoped_txs :
      require_no_unscoped_txs quote held ≡ map unscoped_tx_text (pick as_unscoped_tx rs)
  pub for_unscoped_checks :
      require_no_unscoped_checks quote held ≡ map unscoped_check_text (pick as_unscoped_check rs)
  pub for_nested_scopes :
      require_no_nested_scopes quote held ≡ map (nested_scope_text quote) (pick as_nested_scope rs)
  pub for_leaked_txs :
      require_no_leaked_txs quote held ≡ map (leaked_tx_text quote) (pick as_leaked_tx rs)
  pub for_stale_allows :
      require_no_stale_allows quote held ≡ map (stale_allow_text quote) (pick as_stale_allow rs)

-- Whatever a collecting reporter had before, once it is reset the helpers of a test give one message
-- for each report that arrives from then on and no other: each helper for the reports of its kind, in
-- their order.
pub receive_all-Messages :
    (quote : Bytes → Bytes) (now : ℕ) (c : Collected) (rs : List Report)
    → Messages quote rs (receive_all now (collecting (reset c)) rs)
unfolding reset require_no_violations require_no_unscoped_txs require_no_unscoped_checks
    require_no_nested_scopes require_no_leaked_txs require_no_stale_allows
receive_all-Messages quote now c rs = record {
  held = extended new_collecting rs;
  is_held = unfold new_collecting in receive_all-collecting now new_collecting rs;
  for_violations = unfold new_collecting in refl;
  for_unscoped_txs = unfold new_collecting in refl;
  for_unscoped_checks = unfold new_collecting in refl;
  for_nested_scopes = unfold new_collecting in refl;
  for_leaked_txs = unfold new_collecting in refl;
  for_stale_allows = unfold new_collecting in refl;
}

abbrev pub is_error : Level → Bool
is_error warn = false
is_error error = true

-- The records at the level of an error.
abbrev pub errors : List LogRecord → List LogRecord
errors [] = []
errors (l ∷ ls) = if is_error l.level then l ∷ errors ls else errors ls

receive_all-logging :
    (now : ℕ) (ls : List LogRecord) (rs : List Report)
    → receive_all now (logging ls) rs ≡ logging (ls ++ map log_record rs)
unfolding receive
receive_all-logging now ls [] = ap logging (sym (append-nil ls))
receive_all-logging now ls (r ∷ rs) =
    receive_all-logging now (ls ++ log_record r ∷ []) rs
    ∙ ap logging (append_assoc ls (log_record r ∷ []) (map log_record rs))

stale_record_warns :
    (s : StaleAllow) (counts : List ℤ) → is_error (stale_record s counts).level ≡ false
stale_record_warns s [] = refl
stale_record_warns s (c ∷ counts) = refl

log_stale_allow_warns : (s : StaleAllow) → is_error (log_stale_allow s).level ≡ false
unfolding log_stale_allow
log_stale_allow_warns s = stale_record_warns s s.allowed_calls

errors-log_record :
    (rs : List Report) → errors (map log_record rs) ≡ map log_violation (pick as_violation rs)
unfolding log_record
errors-log_record [] = refl
errors-log_record (violation v ∷ rs) = ap (λ ls. log_violation v ∷ ls) (errors-log_record rs)
errors-log_record (unscoped_tx u ∷ rs) = errors-log_record rs
errors-log_record (unscoped_check u ∷ rs) = errors-log_record rs
errors-log_record (nested_scope n ∷ rs) = errors-log_record rs
errors-log_record (leaked_tx l ∷ rs) = errors-log_record rs
errors-log_record (stale_allow s ∷ rs) = rw (log_stale_allow_warns s) (errors-log_record rs)

-- What the log has: a record for each report, in order, and at the level of an error those of the
-- violations and no other.
pub record Logged (rs : List Report) (x : Reporter) : Type 0 where
  pub records : List LogRecord
  pub is_logged : x ≡ logging records
  pub in_order : records ≡ map log_record rs
  pub at_error : errors records ≡ map log_violation (pick as_violation rs)

-- The logging reporter writes one record for each report that arrives, in their order, and among
-- them those at the level of an error are the records of the violations, with nothing left out.
pub receive_all-Logged : (now : ℕ) (rs : List Report) → Logged rs (receive_all now (logging []) rs)
receive_all-Logged now rs = record {
  records = map log_record rs;
  is_logged = receive_all-logging now [] rs;
  in_order = refl;
  at_error = errors-log_record rs;
}
