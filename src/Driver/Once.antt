-- ===== src/Driver/Once.antt =====
-- driver.go: one observation at most for a statement that database/sql executes on a connection.
use go_txnpure.Base.{nat_eq, Bytes, bytes_Eq, Option, none, some, List}
use go_txnpure.Driver.Below.{Outcome, NamedValue, StmtBelow, ConnBelow}
use go_txnpure.Driver.Conn.{
  Tracked, settle, settle_stmt, prepared, with_values, exec_underlying, query_underlying,
  named_values_to_values, conn_exec_context, conn_query_context, conn_prepare_context,
  stmt_exec_context, stmt_query_context,
}
use go_txnpure.Driver.Stmt.{Stmt, wrap_stmt}
use go_txnpure.State.{Env, Context, Detector}
use go_txnpure.Driver.Fallback.{
  fall_back, sql_exec, sql_query, ObservedOnce, settle_stmt-ObservedOnce, Executes,
  fall_back-ObservedOnce,
}

-- Whether the connection below has the context method or not.
fall_back-conn_prepare_context :
    {D A R Q V : Type 0} (det : Detector) (env : Env) (c : ConnBelow D A R Q) (ctx : Context)
    (query : Bytes) (execute : StmtBelow D A R Q → Stmt → D → Tracked → Outcome V × D × Tracked)
    (r : Outcome V × D) (st : Tracked)
    → Executes det env ctx query execute
    → ObservedOnce det env ctx query st (
        fall_back execute
          (conn_prepare_context det env c ctx query)
          (settle det env ctx query r st))
unfolding conn_prepare_context
fall_back-conn_prepare_context {D} {A} {R} {Q} det env c ctx query execute r st runs =
    at c.prepare_context
  where
    at :
        (o : Option (Context → Bytes → D → Outcome (StmtBelow D A R Q) × D))
        → ObservedOnce det env ctx query st (
            fall_back execute
              (λ db. elim o [
                | some f ↦ prepared det env query (f ctx query db)
                | none ↦ prepared det env query (c.prepare query db)
              ])
              (settle det env ctx query r st))
    at (some f) = fall_back-ObservedOnce det env ctx query execute (f ctx query) r st runs
    at none = fall_back-ObservedOnce det env ctx query execute (c.prepare query) r st runs

stmt_exec_context-Executes :
    {D A R Q : Type 0} (det : Detector) (env : Env) (ctx : Context) (query : Bytes)
    (args : List (NamedValue A))
    → Executes {D = D} {A = A} {R = R} {Q = Q} det env ctx query
        (λ below stmt. stmt_exec_context det env below ctx stmt args)
unfolding stmt_exec_context
stmt_exec_context-Executes {D} {A} {R} det env ctx query args below db st = at below.exec_context
  where
    at :
        (o : Option (Context → List (NamedValue A) → D → Outcome R × D))
        → ObservedOnce {D = D} {V = R} det env ctx query st (elim o [
          | some f ↦ settle_stmt det env ctx (wrap_stmt det query) (f ctx args db) st
          | none ↦
              settle_stmt det env ctx
                (wrap_stmt det query)
                (with_values below.exec db (named_values_to_values args))
                st
        ])
    at (some f) = settle_stmt-ObservedOnce det env ctx query (f ctx args db) st
    at none =
        settle_stmt-ObservedOnce det env ctx query
          (with_values below.exec db (named_values_to_values args)) st

stmt_query_context-Executes :
    {D A R Q : Type 0} (det : Detector) (env : Env) (ctx : Context) (query : Bytes)
    (args : List (NamedValue A))
    → Executes {D = D} {A = A} {R = R} {Q = Q} det env ctx query
        (λ below stmt. stmt_query_context det env below ctx stmt args)
unfolding stmt_query_context
stmt_query_context-Executes {D} {A} {R} {Q} det env ctx query args below db st =
    at below.query_context
  where
    at :
        (o : Option (Context → List (NamedValue A) → D → Outcome Q × D))
        → ObservedOnce {D = D} {V = Q} det env ctx query st (elim o [
          | some f ↦ settle_stmt det env ctx (wrap_stmt det query) (f ctx args db) st
          | none ↦
              settle_stmt det env ctx
                (wrap_stmt det query)
                (with_values below.query db (named_values_to_values args))
                st
        ])
    at (some f) = settle_stmt-ObservedOnce det env ctx query (f ctx args db) st
    at none =
        settle_stmt-ObservedOnce det env ctx query
          (with_values below.query db (named_values_to_values args)) st

-- On one connection, by the fast path or by preparing the statement: it is observed once, and then the
-- error is not ErrBadConn, or not at all and then there is no value. The same holds with rows.
pub sql_exec-ObservedOnce :
    {D A R Q : Type 0} (det : Detector) (env : Env) (c : ConnBelow D A R Q) (ctx : Context)
    (query : Bytes) (args : List (NamedValue A)) (db : D) (st : Tracked)
    → ObservedOnce det env ctx query st (sql_exec det env c ctx query args db st)
      × ObservedOnce det env ctx query st (sql_query det env c ctx query args db st)
unfolding conn_exec_context conn_query_context
sql_exec-ObservedOnce det env c ctx query args db st = (
  fall_back-conn_prepare_context det env c ctx query
      (λ below stmt. stmt_exec_context det env below ctx stmt args)
      (exec_underlying c ctx query args db) st (stmt_exec_context-Executes det env ctx query args),
  fall_back-conn_prepare_context det env c ctx query
      (λ below stmt. stmt_query_context det env below ctx stmt args)
      (query_underlying c ctx query args db) st
      (stmt_query_context-Executes det env ctx query args),
)
