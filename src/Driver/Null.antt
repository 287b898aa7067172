-- ===== src/Driver/Null.antt =====
-- nulldb.go: the driver of NewNullDB, which has no state of its own.
pub mod Script
use go_txnpure.Base.{
  bool_laws, or-false, or-true, or_assoc, and-false, ltb, leb, ◌==◌, if◌then◌else◌, ==_iff,
  Bool-cases, Option-cases, &&-true, length, get_or, get_elem?, set, take, drop, any, All,
  length-append, length-set, length-drop-le, take-append-drop, All-append, ℤ, pos, negsuc, pos_part,
  neg_part, sub_ℕ, ◌≤ℤ◌, leb_ℤ, eq_ℤ, max_int64, inc64, dec64, inc64-pos, dec64-pos, eq_ℤ_iff, Eq,
  nat_eq, Bytes, IsBytes, codes, bytes_eq, bytes_eq_refl, bytes_eq_iff, bytes_Eq, bytes_lt,
  to_upper, to_lower, lookup, insert, lookup-insert, update, insert_by, sort_by, count,
  count-sort_by, ℕ, zero, suc, ◌+◌, ◌-◌, ◌*◌, ◌/◌, ◌%◌, ◌^◌, ◌≤◌, ◌<◌, ◌≡◌, refl, sym, ap, ◌∙◌,
  fun_ext, ◌≢◌, ◌↔◌, ◌⊎◌, inl, inr, Bool, true, false, not, ◌&&◌, ◌||◌, Option, none, some, List,
  [], ◌∷◌, ◌++◌, map, arith,
}
use go_txnpure.Driver.Below.{
  Error, new_error, fail, succeed, NamedValue, TxOptions, is_default, StmtBelow, TxBelow, ConnBelow,
  DriverBelow, ConnectorBelow,
}
use go_txnpure.Driver.Conn.{
  opened, conn_begin_tx, tx_commit, tx_rollback, conn_exec_context, conn_query_context,
  exec_underlying, query_underlying, stmt_exec_context, stmt_query_context,
}
use go_txnpure.Driver.Fallback.{sql_exec, sql_query}
use go_txnpure.Driver.Forward.{
  WrappedConnector, wrap_connector, driver_open, connector_connect, connector_driver,
}
use go_txnpure.Driver.Parity.{observe_stmt-wrap_stmt}
use go_txnpure.Driver.Stmt.{wrap_stmt}
use go_txnpure.Session.{new_session, Session, observe, begin_tx, end_tx}
use go_txnpure.State.{Env, Context, World, Detector}

-- driver.RowsAffected
pub record RowsAffected : Type 0 where
  pub rows : ℕ

-- What the methods of a nullRows return.
pub record NullRows : Type 0 where
  pub columns : List Bytes
  pub close_error : Option Error
  pub next_error : Option Error

abbrev pub null_rows : NullRows
null_rows = record { columns = []; close_error = none; next_error = some (new_error (codes "EOF")) }

abbrev pub null_tx : {D : Type 0} → TxBelow D
null_tx = record { commit = λ d. (none, d); rollback = λ d. (none, d) }

module _ {D A : Type 0} where
  abbrev pub null_stmt : StmtBelow D A RowsAffected NullRows
  null_stmt = record {
    close = λ db. (none, db);
    num_input = negsuc 0;
    check_named_value = none;
    exec = λ args db. (succeed (record { rows = 1 }), db);
    exec_context = none;
    query = λ args db. (succeed null_rows, db);
    query_context = none;
  }

  abbrev pub null_conn : ConnBelow D A RowsAffected NullRows
  null_conn = record {
    close = λ db. (none, db);
    ping = none;
    reset_session = none;
    is_valid = none;
    check_named_value = none;
    prepare = λ query db. (succeed null_stmt, db);
    prepare_context = none;
    begin_plain = λ db. (succeed null_tx, db);
    begin_with = none;
    exec = none;
    exec_context = some (λ ctx query args db. (succeed (record { rows = 1 }), db));
    query = none;
    query_context = some (λ ctx query args db. (succeed null_rows, db));
  }

  abbrev pub null_driver : DriverBelow D A RowsAffected NullRows
  null_driver = record { open_name = λ name db. (succeed null_conn, db) }

  abbrev pub null_connector : ConnectorBelow D A RowsAffected NullRows
  null_connector = record { connect = λ ctx db. (succeed null_conn, db); driver = null_driver }

-- NewNullDB, up to sql.OpenDB of this connector.
unfoldable pub new_null_db : {D A : Type 0} → Detector → WrappedConnector D A RowsAffected NullRows
unfolding wrap_connector
new_null_db det = wrap_connector det null_connector
