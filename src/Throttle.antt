-- ===== src/Throttle.antt =====
-- throttle.go: the per-key windows of the throttling reporter. Times are nanoseconds.
pub mod Keys
pub mod Spacing
pub mod Cap
pub mod Counted
pub mod Volume
use go_txnpure.Base.{
  ltb, leb, ◌==◌, if◌then◌else◌, length, ℤ, pos, negsuc, leb_ℤ, max_int64, inc64, nat_eq, Bytes,
  bytes_Eq, lookup, insert, ℕ, zero, suc, ◌+◌, ◌-◌, ◌/◌, ◌%◌, Bool, true, false, ◌&&◌, Option, none,
  some, List, [], ◌∷◌, ◌++◌,
}
use go_txnpure.Format.{itoa}
use go_txnpure.Identity.{identity_key, key_of}
use go_txnpure.Report.{
  Violation, violation_key, UnscopedTx, UnscopedCheck, StaleAllow, NestedScope, LeakedTx,
}
use go_txnpure.Stack.{StackFrame}

pub record ThrottleState : Type 0 where
  pub last_forwarded : ℕ
  pub suppressed : ℤ

abbrev pub Windows : Type 0
Windows = List (Bytes × ThrottleState)

pub record Throttle : Type 0 where
  pub interval : ℤ
  pub violations : Windows
  pub unscoped : Windows
  pub unscoped_checks : Windows
  pub stale_allows : Windows
  pub nested : Windows
  pub leaked : Windows

unfoldable pub new_throttle : ℤ → Throttle
new_throttle interval = record {
  interval = interval;
  violations = [];
  unscoped = [];
  unscoped_checks = [];
  stale_allows = [];
  nested = [];
  leaked = [];
}

abbrev pub max_unscoped_tx_keys : ℕ
max_unscoped_tx_keys = 1024

-- time.Time.Sub, which stops at the ends of the range of a Duration.
unfoldable pub duration_sub : ℕ → ℕ → ℤ
duration_sub now last =
    if leb last now
    then pos (if leb (now - last) max_int64 then now - last else max_int64)
    else negsuc (if leb (last - now - 1) max_int64 then last - now - 1 else max_int64)

-- A window that is there: forward and start a new one, or count the report as suppressed.
unfoldable pub admit_known : ℤ → ℕ → Windows → Bytes → ThrottleState → Bool × Windows
unfolding duration_sub inc64
admit_known interval now m key st =
    if leb_ℤ interval (duration_sub now st.last_forwarded)
    then (true, insert key (record st { last_forwarded = now }) m)
    else (false, insert key (record st { suppressed = inc64 st.suppressed }) m)

-- The first report of a key, and what the cap does once it is reached.
unfoldable pub admit_new : ℕ → Windows → Bytes → ℕ → Bool × Windows
admit_new now m key max_keys =
    if ltb 0 max_keys && leb max_keys (length m)
    then (true, m)
    else (true, insert key (record { last_forwarded = now; suppressed = pos 0 }) m)

abbrev pub admit_at : ℤ → ℕ → Windows → Bytes → ℕ → Option ThrottleState → Bool × Windows
admit_at interval now m key max_keys none = admit_new now m key max_keys
admit_at interval now m key max_keys (some st) = admit_known interval now m key st

unfoldable pub admit : ℤ → ℕ → Windows → Bytes → ℕ → Bool × Windows
unfolding admit_known admit_new
admit interval now m key max_keys = admit_at interval now m key max_keys (lookup key m)

-- A non-positive interval disables throttling, and no window is kept then.
unfoldable pub pass : ℤ → ℕ → Windows → Bytes → ℕ → Bool × Windows
unfolding admit
pass interval now m key max_keys =
    if leb_ℤ interval (pos 0) then (true, m) else admit interval now m key max_keys

abbrev pub first_site : List StackFrame → Bytes
first_site [] = []
first_site (f ∷ rest) = f.file ++ (b':' ∷ itoa f.line)

unfoldable pub unscoped_tx_key : UnscopedTx → Bytes
unfolding itoa
unscoped_tx_key u = first_site u.stack

abbrev pub pair_key : Bytes → Bytes → Bytes
pair_key a b = a ++ (0 ∷ b)

-- Each method of the reporter decides by its own windows.
unfoldable pub pass_violation : Throttle → ℕ → Violation → Bool × Throttle
unfolding pass identity_key
pass_violation t now v =
    let (go, m) = pass t.interval now t.violations (identity_key (violation_key v)) 0 in
    (go, record t { violations = m })

unfoldable pub pass_unscoped_tx : Throttle → ℕ → UnscopedTx → Bool × Throttle
unfolding pass unscoped_tx_key
pass_unscoped_tx t now u =
    let (go, m) = pass t.interval now t.unscoped (unscoped_tx_key u) max_unscoped_tx_keys in
    (go, record t { unscoped = m })

unfoldable pub pass_unscoped_check : Throttle → ℕ → UnscopedCheck → Bool × Throttle
unfolding pass
pass_unscoped_check t now u =
    let (go, m) = pass t.interval now t.unscoped_checks (pair_key u.op.kind u.op.name) 0 in
    (go, record t { unscoped_checks = m })

unfoldable pub pass_stale_allow : Throttle → ℕ → StaleAllow → Bool × Throttle
unfolding pass identity_key
pass_stale_allow t now s =
    let (go, m) = pass t.interval now t.stale_allows (identity_key (key_of s.scope s.op)) 0 in
    (go, record t { stale_allows = m })

unfoldable pub pass_nested_scope : Throttle → ℕ → NestedScope → Bool × Throttle
unfolding pass
pass_nested_scope t now n =
    let (go, m) = pass t.interval now t.nested (pair_key n.outer n.inner) 0 in
    (go, record t { nested = m })

unfoldable pub pass_leaked_tx : Throttle → ℕ → LeakedTx → Bool × Throttle
unfolding pass
pass_leaked_tx t now l =
    let (go, m) = pass t.interval now t.leaked l.scope 0 in (go, record t { leaked = m })

abbrev pub snapshot_entry : Bytes → ThrottleState → List (Bytes × ℤ) → List (Bytes × ℤ)
snapshot_entry k st out = if leb_ℤ st.suppressed (pos 0) then out else (k, st.suppressed) ∷ out

-- The keys with a suppression, each with its count.
unfoldable pub snapshot : Windows → List (Bytes × ℤ)
snapshot [] = []
snapshot ((k, st) ∷ m) = snapshot_entry k st (snapshot m)

-- The six SuppressedViolations, SuppressedUnscopedTxs and so on.
unfoldable pub suppressed_violations : Throttle → List (Bytes × ℤ)
unfolding snapshot
suppressed_violations t = snapshot t.violations

unfoldable pub suppressed_unscoped_txs : Throttle → List (Bytes × ℤ)
unfolding snapshot
suppressed_unscoped_txs t = snapshot t.unscoped

unfoldable pub suppressed_unscoped_checks : Throttle → List (Bytes × ℤ)
unfolding snapshot
suppressed_unscoped_checks t = snapshot t.unscoped_checks

unfoldable pub suppressed_stale_allows : Throttle → List (Bytes × ℤ)
unfolding snapshot
suppressed_stale_allows t = snapshot t.stale_allows

unfoldable pub suppressed_nested_scopes : Throttle → List (Bytes × ℤ)
unfolding snapshot
suppressed_nested_scopes t = snapshot t.nested

unfoldable pub suppressed_leaked_txs : Throttle → List (Bytes × ℤ)
unfolding snapshot
suppressed_leaked_txs t = snapshot t.leaked
