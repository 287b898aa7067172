-- ===== src/Reporter/Required.antt =====
-- reporter.go: the getters, Reset and the Require helpers of the collecting reporter. A helper gives
-- the messages of its calls of t.Errorf, in their order.
use go_txnpure.Base.{ℤ, nat_eq, Bytes, codes, bytes_Eq, List, [], ◌∷◌, ◌++◌, map}
use go_txnpure.Format.{format_int, concat}
use go_txnpure.Report.Text.{join_counts, frame_text, violation_text}
use go_txnpure.Report.{Violation, UnscopedTx, UnscopedCheck, StaleAllow, NestedScope, LeakedTx}
use go_txnpure.Reporter.{Collected}
use go_txnpure.Stack.{StackFrame}

-- Violations and the other getters; a copied slice is the same list.
abbrev pub all_violations : Collected → List Violation
all_violations c = c.violations

abbrev pub all_unscoped_txs : Collected → List UnscopedTx
all_unscoped_txs c = c.unscoped

abbrev pub all_unscoped_checks : Collected → List UnscopedCheck
all_unscoped_checks c = c.unscoped_checks

abbrev pub all_nested_scopes : Collected → List NestedScope
all_nested_scopes c = c.nested

abbrev pub all_leaked_txs : Collected → List LeakedTx
all_leaked_txs c = c.leaked

abbrev pub all_stale_allows : Collected → List StaleAllow
all_stale_allows c = c.stale_allows

unfoldable pub reset : Collected → Collected
reset c = record c {
  violations = [];
  unscoped = [];
  unscoped_checks = [];
  nested = [];
  leaked = [];
  stale_allows = [];
}

-- The `loc` of the first frame.
abbrev pub location : List StackFrame → Bytes
location [] = []
location (f ∷ stack) = codes " at " ++ frame_text f

unfoldable pub unscoped_tx_text : UnscopedTx → Bytes
unfolding frame_text
unscoped_tx_text u =
    codes "txnpure: transaction begun with no scope in its context" ++ location u.stack

unfoldable pub unscoped_check_text : UnscopedCheck → Bytes
unfolding frame_text
unscoped_check_text u = concat (
    codes "txnpure: checkpoint ["
    ∷ u.op.kind
    ∷ codes "] "
    ∷ u.op.name
    ∷ codes " ran with no scope in its context"
    ∷ location u.stack
    ∷ [])

-- `quote` is what the verb %q prints of a string.
module _ (quote : Bytes → Bytes) where
  unfoldable pub nested_scope_text : NestedScope → Bytes
  nested_scope_text n = concat (
      codes "txnpure: scope "
      ∷ quote n.inner
      ∷ codes " started inside scope "
      ∷ quote n.outer
      ∷ codes "; transactions and checks attribute to the inner one only"
      ∷ [])

  unfoldable pub leaked_tx_text : LeakedTx → Bytes
  unfolding format_int
  leaked_tx_text l = concat (
      codes "txnpure: scope "
      ∷ quote l.scope
      ∷ codes " finished with "
      ∷ format_int l.open_txs
      ∷ codes " transaction(s) still open"
      ∷ [])

  abbrev pub stale_text : StaleAllow → List ℤ → Bytes
  stale_text s [] = concat (
      codes "txnpure: check ["
      ∷ s.op.kind
      ∷ codes "] "
      ∷ s.op.name
      ∷ codes " in scope "
      ∷ quote s.scope
      ∷ codes " is covered by an in-code allow ("
      ∷ s.reason
      ∷ codes ") but ran outside any transaction; remove the stale allow"
      ∷ [])
  stale_text s (c ∷ counts) = concat (
      codes "txnpure: allow ("
      ∷ s.reason
      ∷ codes ") in scope "
      ∷ quote s.scope
      ∷ codes " declared exactly "
      ∷ join_counts (c ∷ counts)
      ∷ codes " in-transaction call(s) but "
      ∷ format_int s.calls
      ∷ codes " ran; fix the declared count or remove the allow"
      ∷ [])

  unfoldable pub stale_allow_text : StaleAllow → Bytes
  unfolding join_counts format_int
  stale_allow_text s = stale_text s s.allowed_calls

  unfoldable pub require_no_violations : Collected → List Bytes
  unfolding violation_text
  require_no_violations c = map (violation_text quote) (all_violations c)

  unfoldable pub require_no_unscoped_txs : Collected → List Bytes
  unfolding unscoped_tx_text
  require_no_unscoped_txs c = map unscoped_tx_text (all_unscoped_txs c)

  unfoldable pub require_no_unscoped_checks : Collected → List Bytes
  unfolding unscoped_check_text
  require_no_unscoped_checks c = map unscoped_check_text (all_unscoped_checks c)

  unfoldable pub require_no_nested_scopes : Collected → List Bytes
  unfolding nested_scope_text
  require_no_nested_scopes c = map nested_scope_text (all_nested_scopes c)

  unfoldable pub require_no_leaked_txs : Collected → List Bytes
  unfolding leaked_tx_text
  require_no_leaked_txs c = map leaked_tx_text (all_leaked_txs c)

  unfoldable pub require_no_stale_allows : Collected → List Bytes
  unfolding stale_allow_text
  require_no_stale_allows c = map stale_allow_text (all_stale_allows c)
