-- ===== src/State.antt =====
-- The shared state: contexts, scopes and allow regions behind pointers, the allowlist and the
-- reporters (detector.go, allow.go, allowlist.go), and the fixed part of a detector.
use go_txnpure.Base.{ℤ, nat_eq, Bytes, bytes_Eq, update, ℕ, Bool, Option, none, some, List}
use go_txnpure.Classify.{StatementKind}
use go_txnpure.Identity.{Op, ViolationKey}
use go_txnpure.Report.{Report, ScopeAttr}
use go_txnpure.Reporter.{Reporter, notify}
use go_txnpure.Stack.{StackFrame}

-- What the runtime gives an operation: the time, the clock of the throttling reporters and the
-- frames of the caller.
pub record Env : Type 0 where
  pub time : ℕ
  pub clock : ℕ
  pub callers : ℕ → List StackFrame

-- A context is the chain of its `WithValue` layers. A layer of the library holds the address of a
-- scope, or those of a scope and of an allow region; any other layer holds an application's value.
pub data Context : Type 0 where
  background : Context
  with_value : ℕ → Context → Context
  with_scope : ℕ → Context → Context
  with_allowed : ℕ → ℕ → Context → Context

-- The innermost layer of the library: the scope and the region.
unfoldable pub scope_and_mark_from : Context → Option (ℕ × Option ℕ)
scope_and_mark_from background = none
scope_and_mark_from (with_value v ctx) = scope_and_mark_from ctx
scope_and_mark_from (with_scope i ctx) = some (i, none)
scope_and_mark_from (with_allowed i m ctx) = some (i, some m)

abbrev pub first_of_pair : Option (ℕ × Option ℕ) → Option ℕ
first_of_pair none = none
first_of_pair (some (i, mark)) = some i

unfoldable pub scope_from : Context → Option ℕ
unfolding scope_and_mark_from
scope_from ctx = first_of_pair (scope_and_mark_from ctx)

pub record CallCount : Type 0 where
  pub n : ℤ
  pub declared : List ℤ
  pub reason : Bytes

pub record AllowMark : Type 0 where
  pub reason : Bytes
  pub counts : List ℤ
  pub n : ℤ

-- `marks` are the addresses of the counted regions.
pub record Scope : Type 0 where
  pub name : Bytes
  pub attrs : List ScopeAttr
  pub open_txs : ℤ
  pub finished : Bool
  pub calls : List (ViolationKey × CallCount)
  pub marks : List ℕ

pub record AllowlistEntry : Type 0 where
  pub reason : Bytes
  pub counts : List ℤ
  pub used : Bool

pub record Allowlist : Type 0 where
  pub entries : List (ViolationKey × AllowlistEntry)

-- The addresses below `next_scope` and `next_mark` are in use.
pub record World : Type 0 where
  pub scope_at : ℕ → Scope
  pub next_scope : ℕ
  pub mark_at : ℕ → AllowMark
  pub next_mark : ℕ
  pub allowlist : Option Allowlist
  pub reporters : List Reporter

-- The fields of a Detector that never change.
pub record Detector : Type 0 where
  pub classify : Bytes → StatementKind
  pub stmt_checkers : List (Bytes → Option Op)
  pub attrs_func : Option (Context → List ScopeAttr)
  pub report_unscoped : Bool
  pub report_unscoped_check : Bool
  pub report_nested : Bool
  pub report_leaked : Bool
  pub stack_depth : ℤ

abbrev pub put_scope : ℕ → Scope → World → World
put_scope i s w = record w { scope_at = update w.scope_at i s }

abbrev pub put_mark : ℕ → AllowMark → World → World
put_mark m a w = record w { mark_at = update w.mark_at m a }

-- A report to every reporter that takes it.
unfoldable pub report : Env → Report → World → World
unfolding notify
report env r w = record w { reporters = notify env.clock r w.reporters }
