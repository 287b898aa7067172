-- ===== src/Driver/Null/Script.antt =====
-- nulldb.go and driver.go: any program on a connection of the null database, against the session alone.
use go_txnpure.Base.{
  if◌then◌else◌, any, nat_eq, Bytes, codes, bytes_Eq, Option, none, some, List, [], ◌∷◌,
}
use go_txnpure.Driver.Below.{Error, new_error, Outcome, NamedValue, TxOptions, is_default}
use go_txnpure.Driver.Conn.{
  Tracked, conn_begin_tx, tx_commit, tx_rollback, conn_exec_context, conn_query_context,
  conn_prepare_context, stmt_exec_context, stmt_query_context,
}
use go_txnpure.Driver.Fallback.{sql_exec, sql_query}
use go_txnpure.Driver.Legacy.{is_named, named_error}
use go_txnpure.Driver.Null.{RowsAffected, NullRows, null_rows, null_tx, null_conn}
use go_txnpure.Session.{observe, begin_tx, end_tx}
use go_txnpure.State.{Env, Context, Detector}

-- What a program does on a connection: statements without rows and with rows, direct and prepared,
-- and transactions.
pub data DbCall (A : Type 0) : Type 0 where
  executes : Context → Bytes → List (NamedValue A) → DbCall A
  queries : Context → Bytes → List (NamedValue A) → DbCall A
  executes_prepared : Context → Bytes → List (NamedValue A) → DbCall A
  queries_prepared : Context → Bytes → List (NamedValue A) → DbCall A
  begins_with : Context → TxOptions → DbCall A
  commits : DbCall A
  rolls_back : DbCall A

pub data Answer : Type 0 where
  done : Answer
  affected : RowsAffected → Answer
  yielded : NullRows → Answer
  failed : Error → Answer

abbrev answer_of : {V : Type 0} → (V → Answer) → Outcome V → Answer
answer_of f o = elim o.error [
  | some e ↦ failed e
  | none ↦ elim o.value [ none ↦ done | some v ↦ f v ]
]

abbrev ended_with : Option Error → Answer
ended_with none = done
ended_with (some e) = failed e

abbrev answered : {D V : Type 0} → (V → Answer) → Outcome V × D × Tracked → Answer × D × Tracked
answered f (o, db, st) = (answer_of f o, db, st)

-- A call on a connection of the null database, through the wrapper.
unfoldable pub null_call :
    {D A : Type 0} → Detector → Env → DbCall A → D → Tracked → Answer × D × Tracked
unfolding conn_exec_context conn_query_context conn_prepare_context stmt_exec_context
    stmt_query_context conn_begin_tx tx_commit tx_rollback
null_call det env (executes ctx query args) db st =
    answered affected (sql_exec det env null_conn ctx query args db st)
null_call det env (queries ctx query args) db st =
    answered yielded (sql_query det env null_conn ctx query args db st)
null_call {D} {A} det env (executes_prepared ctx query args) db st =
    let (p, db') = conn_prepare_context det env (null_conn {D = D} {A = A}) ctx query db in
    elim p.value [
      | none ↦ (done, db', st)
      | some (below, stmt) ↦
          answered affected (stmt_exec_context det env below ctx stmt args db' st)
    ]
null_call {D} {A} det env (queries_prepared ctx query args) db st =
    let (p, db') = conn_prepare_context det env (null_conn {D = D} {A = A}) ctx query db in
    elim p.value [
      | none ↦ (done, db', st)
      | some (below, stmt) ↦
          answered yielded (stmt_query_context det env below ctx stmt args db' st)
    ]
null_call {D} {A} det env (begins_with ctx opts) db st =
    answered (λ tx. done) (conn_begin_tx det env (null_conn {D = D} {A = A}) ctx opts db st)
null_call det env commits db st =
    let (e, db', st') = tx_commit null_tx db st in (ended_with e, db', st')
null_call det env rolls_back db st =
    let (e, db', st') = tx_rollback null_tx db st in (ended_with e, db', st')

-- What the program should see: nothing but named parameters of a prepared statement and options of a
-- transaction is refused.
abbrev unless_named : {A : Type 0} → List (NamedValue A) → Answer → Answer
unless_named args answer = if any is_named args then failed named_error else answer

abbrev pub unsupported_options : Error
unsupported_options =
    new_error (codes "txnpure: underlying driver does not support non-default transaction options")

abbrev pub expected_answer : {A : Type 0} → DbCall A → Answer
expected_answer (executes ctx query args) = affected (record { rows = 1 })
expected_answer (queries ctx query args) = yielded null_rows
expected_answer (executes_prepared ctx query args) =
    unless_named args (affected (record { rows = 1 }))
expected_answer (queries_prepared ctx query args) = unless_named args (yielded null_rows)
expected_answer (begins_with ctx opts) =
    if is_default opts then done else failed unsupported_options
expected_answer commits = done
expected_answer rolls_back = done

-- What the session of the connection does of it by itself.
abbrev pub session_call : {A : Type 0} → Detector → Env → DbCall A → Tracked → Tracked
session_call det env (executes ctx query args) (s, w) = observe det env ctx query s w
session_call det env (queries ctx query args) (s, w) = observe det env ctx query s w
session_call det env (executes_prepared ctx query args) (s, w) = observe det env ctx query s w
session_call det env (queries_prepared ctx query args) (s, w) = observe det env ctx query s w
session_call det env (begins_with ctx opts) (s, w) =
    if is_default opts then begin_tx det env ctx s w else (s, w)
session_call det env commits (s, w) = end_tx s w
session_call det env rolls_back (s, w) = end_tx s w

-- A program, and what its session does by itself.
unfoldable pub null_calls :
    {D A : Type 0} → Detector → List (Env × DbCall A) → D → Tracked → List Answer × D × Tracked
unfolding null_call
null_calls det [] db st = ([], db, st)
null_calls det ((env, call) ∷ calls) db st =
    let (a, db', st') = null_call det env call db st in
    let (rest, db'', st'') = null_calls det calls db' st' in (a ∷ rest, db'', st'')

abbrev pub expected_answers : {A : Type 0} → List (Env × DbCall A) → List Answer
expected_answers [] = []
expected_answers ((env, call) ∷ calls) = expected_answer call ∷ expected_answers calls

abbrev pub session_calls : {A : Type 0} → Detector → List (Env × DbCall A) → Tracked → Tracked
session_calls det [] st = st
session_calls det ((env, call) ∷ calls) st = session_calls det calls (session_call det env call st)
