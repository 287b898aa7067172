-- ===== src/Report.antt =====
-- reporter.go: what the detector reports. attrs.go: the attributes that a violation carries.
pub mod Text
pub mod Counts
use go_txnpure.Base.{ℤ, nat_eq, Bytes, bytes_Eq, ℕ, List, []}
use go_txnpure.Identity.{Op, ViolationKey, key_of}
use go_txnpure.Stack.{StackFrame}

-- A value of any type stands for itself: the library only passes it on.
pub record ScopeAttr : Type 0 where
  pub key : Bytes
  pub value : ℕ

pub record Violation : Type 0 where
  pub op : Op
  pub scope : Bytes
  pub open_txs : ℤ
  pub call : ℤ
  pub allowed_calls : List ℤ
  pub stack : List StackFrame
  pub attrs : List ScopeAttr
  pub time : ℕ

abbrev pub violation_key : Violation → ViolationKey
violation_key v = key_of v.scope v.op

pub record UnscopedTx : Type 0 where
  pub stack : List StackFrame
  pub time : ℕ

pub record UnscopedCheck : Type 0 where
  pub op : Op
  pub stack : List StackFrame
  pub time : ℕ

pub record NestedScope : Type 0 where
  pub outer : Bytes
  pub inner : Bytes
  pub time : ℕ

pub record LeakedTx : Type 0 where
  pub scope : Bytes
  pub open_txs : ℤ
  pub time : ℕ

pub record StaleAllow : Type 0 where
  pub scope : Bytes
  pub op : Op
  pub reason : Bytes
  pub calls : ℤ
  pub allowed_calls : List ℤ

-- One call of a method of `Reporter` or of its optional extensions.
pub data Report : Type 0 where
  violation : Violation → Report
  unscoped_tx : UnscopedTx → Report
  unscoped_check : UnscopedCheck → Report
  nested_scope : NestedScope → Report
  leaked_tx : LeakedTx → Report
  stale_allow : StaleAllow → Report

abbrev pub no_op : Op
no_op = record { kind = []; name = [] }
