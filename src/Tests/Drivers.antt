-- ===== src/Tests/Drivers.antt =====
-- A driver that always skips the fast path.
use go_txnpure.Base.{
  length, negsuc, nat_eq, codes, bytes_Eq, ℕ, ◌+◌, ◌≡◌, refl, true, false, none, some, List, [],
  ◌∷◌, arith,
}
use go_txnpure.Detector.{empty_world}
use go_txnpure.Driver.Below.{
  Error, StmtBelow, TxBelow, ConnBelow, NamedValue, TxOptions, succeed, fail, err_skip, new_error,
}
use go_txnpure.Driver.Conn.{
  conn_begin_tx, tx_commit, tx_rollback, conn_exec_context, conn_query_context,
  conn_prepare_context, stmt_exec_context, stmt_query_context, exec_underlying,
  named_values_to_values, settle, settle_stmt,
}
use go_txnpure.Driver.Legacy.{IsLegacy, named_error, plainly, conn_exec_context-plainly}
use go_txnpure.Driver.Null.Script.{DbCall, executes, executes_prepared, begins_with, commits}
use go_txnpure.Driver.Stmt.{wrap_stmt}
use go_txnpure.Driver.Lifecycle.{Ends, conn_begin_tx-Ends}
use go_txnpure.Driver.Retry.{db_exec, db_query, retry, ObservedByOne, db_exec-ObservedByOne}
use go_txnpure.State.{Env, World}
use go_txnpure.Identity.{key_Eq}
use go_txnpure.Detector.{default_detector}
use go_txnpure.Session.{new_session}
use go_txnpure.System.Histories.{reached}
use go_txnpure.Tests.{checking, env, history, insert_orders, pay}

-- A driver whose database counts the calls, and whose fast path is always skipped.
abbrev statement : StmtBelow ℕ ℕ ℕ ℕ
statement = record {
  close = λ db. (none, db);
  num_input = negsuc 0;
  check_named_value = none;
  exec = λ args db. (succeed 1, db + 1);
  exec_context = none;
  query = λ args db. (succeed 2, db + 1);
  query_context = none;
}

abbrev transaction : TxBelow ℕ
transaction = record {
  commit = λ db. (some (new_error (codes "conflict")), db + 1);
  rollback = λ db. (none, db + 1);
}

abbrev connection : ConnBelow ℕ ℕ ℕ ℕ
connection = record {
  close = λ db. (none, db);
  ping = none;
  reset_session = none;
  is_valid = none;
  check_named_value = none;
  prepare = λ query db. (succeed statement, db + 1);
  prepare_context = none;
  begin_plain = λ db. (succeed transaction, db + 1);
  begin_with = none;
  exec = none;
  exec_context = none;
  query = none;
  query_context = some (λ ctx query args db. (fail err_skip, db + 1));
}

abbrev bad_conn : Error
bad_conn = record { is_skip = false; is_bad_conn = true; text = codes "driver: bad connection" }

abbrev plain : NamedValue ℕ
plain = record { name = []; value = 4 }

-- A connection that is bad once a statement runs on it.
abbrev lost : ConnBelow ℕ ℕ ℕ ℕ
lost = record connection {
  exec_context = some (λ ctx query args db. (fail bad_conn, db + 1));
  query_context = some (λ ctx query args db. (fail bad_conn, db + 1));
}

abbrev shared : World
shared = (reached [] history).world

retried_on_the_second :
    (db_exec checking env pay insert_orders
      (plain ∷ [])
      (lost, new_session)
      ((connection, new_session) ∷ [])
      0
      shared).outcome
    ≡ succeed 1
unfolding retry conn_exec_context conn_prepare_context exec_underlying stmt_exec_context
    named_values_to_values
retried_on_the_second = refl

db_exec-ObservedByOne_example :
    ObservedByOne checking env pay insert_orders (new_session ∷ new_session ∷ []) shared (
      db_exec checking env pay insert_orders
        (plain ∷ [])
        (lost, new_session)
        ((connection, new_session) ∷ [])
        0
        shared)
    × ObservedByOne checking env pay insert_orders (new_session ∷ new_session ∷ []) shared (
        db_query checking env pay insert_orders
          (plain ∷ [])
          (lost, new_session)
          ((connection, new_session) ∷ [])
          0
          shared)
db_exec-ObservedByOne_example =
    db_exec-ObservedByOne checking env pay insert_orders (plain ∷ []) lost new_session
      ((connection, new_session) ∷ []) 0 shared

abbrev no_options : TxOptions
no_options = record { isolation = 0; read_only = false }

conn_begin_tx-Ends_example :
    Ends empty_world tx_commit
      (conn_begin_tx default_detector env connection pay no_options 0 (new_session, empty_world))
    × Ends empty_world tx_rollback
        (conn_begin_tx default_detector env connection pay no_options 0 (new_session, empty_world))
conn_begin_tx-Ends_example =
    conn_begin_tx-Ends default_detector env connection pay no_options 0 empty_world
      (λ i. (0, refl, omega arith))

-- A driver that takes plain values only, and answers with the number of them.
abbrev legacy : ConnBelow ℕ ℕ ℕ ℕ
legacy = record connection {
  exec = some (λ query args db. (succeed (length args), db + 1));
  query = some (λ query args db. (succeed (length args), db + 1));
  query_context = none;
}

abbrev legacy-IsLegacy : IsLegacy legacy statement
legacy-IsLegacy = record {
  exec_plain = λ query args db. (succeed (length args), db + 1);
  has_exec = refl;
  no_exec_context = refl;
  query_plain = λ query args db. (succeed (length args), db + 1);
  has_query = refl;
  no_query_context = refl;
  no_stmt_exec_context = refl;
  no_stmt_query_context = refl;
}

abbrev with_name : NamedValue ℕ
with_name = record { name = codes "id"; value = 4 }

named_is_refused :
    conn_exec_context checking env legacy pay insert_orders
      (plain ∷ with_name ∷ [])
      7
      (new_session, empty_world)
    ≡ settle checking env pay insert_orders (fail named_error, 7) (new_session, empty_world)
unfolding conn_exec_context exec_underlying named_values_to_values
named_is_refused = refl

conn_exec_context-plainly_example :
    (conn_exec_context checking env legacy pay insert_orders
        (plain ∷ with_name ∷ [])
        7
        (new_session, empty_world)
      ≡ settle checking env pay insert_orders
          (plainly (legacy-IsLegacy.exec_plain insert_orders) (plain ∷ with_name ∷ []) 7)
          (new_session, empty_world))
    × (conn_query_context checking env legacy pay insert_orders
          (plain ∷ with_name ∷ [])
          7
          (new_session, empty_world)
        ≡ settle checking env pay insert_orders
            (plainly (legacy-IsLegacy.query_plain insert_orders) (plain ∷ with_name ∷ []) 7)
            (new_session, empty_world))
    × (stmt_exec_context checking env statement pay
          (wrap_stmt checking insert_orders)
          (plain ∷ with_name ∷ [])
          7
          (new_session, empty_world)
        ≡ settle_stmt checking env pay
            (wrap_stmt checking insert_orders)
            (plainly statement.exec (plain ∷ with_name ∷ []) 7)
            (new_session, empty_world))
    × (stmt_query_context checking env statement pay
          (wrap_stmt checking insert_orders)
          (plain ∷ with_name ∷ [])
          7
          (new_session, empty_world)
        ≡ settle_stmt checking env pay
            (wrap_stmt checking insert_orders)
            (plainly statement.query (plain ∷ with_name ∷ []) 7)
            (new_session, empty_world))
conn_exec_context-plainly_example =
    conn_exec_context-plainly checking env legacy statement pay insert_orders
      (wrap_stmt checking insert_orders) (plain ∷ with_name ∷ []) 7 (new_session, empty_world)
      legacy-IsLegacy

-- A transaction with options, then one without, and statements with and without a name.
abbrev null_program : List (Env × DbCall ℕ)
null_program =
    (env, begins_with pay (record { isolation = 6; read_only = false }))
    ∷ (env, begins_with pay no_options)
    ∷ (env, executes pay insert_orders (with_name ∷ []))
    ∷ (env, executes_prepared pay insert_orders (with_name ∷ []))
    ∷ (env, commits)
    ∷ []
