-- ===== src/Driver/Stmt.antt =====
-- driver.go: prepared statements, which are classified and matched once.
use go_txnpure.Base.{nat_eq, Bytes, bytes_Eq, List}
use go_txnpure.Check.{matched_ops, report_statement_ops}
use go_txnpure.Classify.{StatementKind}
use go_txnpure.Identity.{Op}
use go_txnpure.Session.{Session, observe_kind, run_some}
use go_txnpure.State.{Env, Context, World, Detector}

-- A wrappedStmt, less its connection and the statement below it.
pub record Stmt : Type 0 where
  pub query : Bytes
  pub kind : StatementKind
  pub stmt_ops : List Op

unfoldable pub wrap_stmt : Detector → Bytes → Stmt
unfolding matched_ops
wrap_stmt d query = record {
  query = query;
  kind = d.classify query;
  stmt_ops = matched_ops d.stmt_checkers query;
}

-- One execution of the statement, on the session of its connection.
unfoldable pub observe_stmt : Detector → Env → Context → Stmt → Session → World → Session × World
unfolding observe_kind report_statement_ops
observe_stmt d env ctx stmt s w =
    let (s', w') = observe_kind d env ctx stmt.query stmt.kind s w in
    (s', run_some stmt.stmt_ops (report_statement_ops d env ctx stmt.stmt_ops) w')
