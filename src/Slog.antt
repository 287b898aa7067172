-- ===== src/Slog.antt =====
-- reporter.go and attrs.go: the reporter that writes to a slog.Logger, which is the list of the
-- records that it got.
use go_txnpure.Base.{
  ℤ, nat_eq, Bytes, codes, bytes_Eq, ℕ, Option, none, some, List, [], ◌∷◌, ◌++◌, map,
}
use go_txnpure.Report.Text.{stack_strings}
use go_txnpure.Report.{
  ScopeAttr, Violation, UnscopedTx, UnscopedCheck, StaleAllow, NestedScope, LeakedTx, Report,
  violation, unscoped_tx, unscoped_check, nested_scope, leaked_tx, stale_allow,
}
use go_txnpure.Stack.{StackFrame}

pub data Value : Type 0 where
  string_value : Bytes → Value
  int_value : ℤ → Value
  counts_value : List ℤ → Value
  strings_value : List Bytes → Value
  any_value : ℕ → Value

pub record Attribute : Type 0 where
  pub key : Bytes
  pub value : Value

abbrev pub attr : Bytes → Value → Attribute
attr key value = record { key = key; value = value }

pub data Level : Type 0 where
  warn error : Level

pub record LogRecord : Type 0 where
  pub level : Level
  pub message : Bytes
  pub args : List Attribute

-- SlogAttrs
unfoldable pub slog_attrs : List ScopeAttr → List Attribute
slog_attrs attrs = map (λ a. attr a.key (any_value a.value)) attrs

abbrev pub counts_arg : List ℤ → List Attribute
counts_arg [] = []
counts_arg (c ∷ counts) = attr (codes "allowed_calls") (counts_value (c ∷ counts)) ∷ []

abbrev pub stack_arg : List StackFrame → List Attribute
stack_arg [] = []
stack_arg (f ∷ stack) = attr (codes "stack") (strings_value (stack_strings (f ∷ stack))) ∷ []

unfoldable pub log_violation : Violation → LogRecord
unfolding slog_attrs stack_strings
log_violation v = record {
  level = error;
  message = codes "txnpure: side effect inside an open transaction";
  args =
      attr (codes "kind") (string_value v.op.kind)
        ∷ attr (codes "name") (string_value v.op.name)
        ∷ attr (codes "scope") (string_value v.scope)
        ∷ attr (codes "open_txs") (int_value v.open_txs)
        ∷ attr (codes "call") (int_value v.call)
        ∷ counts_arg v.allowed_calls
      ++ stack_arg v.stack
      ++ slog_attrs v.attrs;
}

unfoldable pub log_unscoped_tx : UnscopedTx → LogRecord
unfolding stack_strings
log_unscoped_tx u = record {
  level = warn;
  message = codes "txnpure: transaction begun with no scope in its context";
  args = stack_arg u.stack;
}

unfoldable pub log_unscoped_check : UnscopedCheck → LogRecord
unfolding stack_strings
log_unscoped_check u = record {
  level = warn;
  message = codes "txnpure: checkpoint ran with no scope in its context";
  args =
      attr (codes "kind") (string_value u.op.kind)
      ∷ attr (codes "name") (string_value u.op.name)
      ∷ stack_arg u.stack;
}

unfoldable pub log_nested_scope : NestedScope → LogRecord
log_nested_scope n = record {
  level = warn;
  message =
      codes
        "txnpure: scope started inside another scope; transactions and checks attribute to the inner one only";
  args =
      attr (codes "outer") (string_value n.outer)
      ∷ attr (codes "inner") (string_value n.inner)
      ∷ [];
}

unfoldable pub log_leaked_tx : LeakedTx → LogRecord
log_leaked_tx l = record {
  level = warn;
  message = codes "txnpure: scope finished with transactions still open";
  args =
      attr (codes "scope") (string_value l.scope)
      ∷ attr (codes "open_txs") (int_value l.open_txs)
      ∷ [];
}

abbrev pub stale_args : StaleAllow → List Attribute → List Attribute
stale_args s rest =
    attr (codes "scope") (string_value s.scope)
    ∷ attr (codes "kind") (string_value s.op.kind)
    ∷ attr (codes "name") (string_value s.op.name)
    ∷ attr (codes "reason") (string_value s.reason)
    ∷ rest

abbrev pub stale_record : StaleAllow → List ℤ → LogRecord
stale_record s [] = record {
  level = warn;
  message = codes "txnpure: check is covered by an in-code allow but ran outside any transaction";
  args = stale_args s [];
}
stale_record s (c ∷ counts) = record {
  level = warn;
  message =
      codes "txnpure: allow declared an exact in-transaction call count the scope did not produce";
  args = stale_args s (
      attr (codes "calls") (int_value s.calls)
      ∷ attr (codes "allowed_calls") (counts_value (c ∷ counts))
      ∷ []);
}

unfoldable pub log_stale_allow : StaleAllow → LogRecord
log_stale_allow s = stale_record s s.allowed_calls

-- The method that takes the report.
unfoldable pub log_record : Report → LogRecord
unfolding log_violation log_unscoped_tx log_unscoped_check log_nested_scope log_leaked_tx
    log_stale_allow
log_record (violation v) = log_violation v
log_record (unscoped_tx u) = log_unscoped_tx u
log_record (unscoped_check u) = log_unscoped_check u
log_record (nested_scope n) = log_nested_scope n
log_record (leaked_tx l) = log_leaked_tx l
log_record (stale_allow s) = log_stale_allow s

-- NewSlogReporter: a logger that is nil is the default one.
unfoldable pub new_slog_reporter {ℓ} : {L : Type ℓ} → L → Option L → L
new_slog_reporter default none = default
new_slog_reporter default (some l) = l
