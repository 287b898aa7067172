-- ===== src/Driver/Conn.antt =====
-- driver.go: the methods of wrappedConn, wrappedTx and wrappedStmt. The connection's session and all
-- that the detector shares are one state beside that of the database.
use go_txnpure.Base.{
  if◌then◌else◌, nat_eq, Bytes, codes, bytes_Eq, not, Option, none, some, List, [], ◌∷◌,
}
use go_txnpure.Session.{Session, observe, begin_tx, end_tx}
use go_txnpure.Driver.Below.{
  Error, err_skip, new_error, Outcome, fail, succeed, is_skip, is_bad_conn, NamedValue, TxOptions,
  is_default, StmtBelow, TxBelow, ConnBelow,
}
use go_txnpure.Driver.Stmt.{Stmt, wrap_stmt, observe_stmt}
use go_txnpure.State.{Env, Context, background, World, Detector}

abbrev pub Tracked : Type 0
Tracked = Session × World

abbrev pub put_value {ℓ} : {V : Type ℓ} → V → Outcome (List V) → Outcome (List V)
put_value v o = elim o.error [
  | none ↦ elim o.value [ none ↦ succeed (v ∷ []) | some vs ↦ succeed (v ∷ vs) ]
  | some e ↦ fail e
]

-- The loop of namedValuesToValues.
unfoldable pub named_values_to_values : {A : Type 0} → List (NamedValue A) → Outcome (List A)
named_values_to_values [] = succeed []
named_values_to_values (nv ∷ named) = elim nv.name [
  | [] ↦ put_value nv.value (named_values_to_values named)
  | c ∷ name ↦
      fail
        (new_error (codes "txnpure: named parameters are not supported by the underlying driver"))
]

-- Begin and BeginTx. The transaction below is what the connection's `wtx` then holds.
unfoldable pub opened :
    {D : Type 0}
    → Detector
    → Env
    → Context
    → Outcome (TxBelow D) × D
    → Tracked
    → Outcome (TxBelow D) × D × Tracked
unfolding begin_tx
opened det env ctx (o, db) (s, w) = elim o.error [
  | none ↦ (o, db, begin_tx det env ctx s w)
  | some e ↦ (fail e, db, (s, w))
]

-- Commit and Rollback, on the transaction below: the session ends whatever that returns.
unfoldable pub tx_commit : {D : Type 0} → TxBelow D → D → Tracked → Option Error × D × Tracked
unfolding end_tx
tx_commit tx db (s, w) = let (e, db') = tx.commit db in (e, db', end_tx s w)

unfoldable pub tx_rollback : {D : Type 0} → TxBelow D → D → Tracked → Option Error × D × Tracked
unfolding end_tx
tx_rollback tx db (s, w) = let (e, db') = tx.rollback db in (e, db', end_tx s w)

-- A call with plain values, if the named ones have no names.
abbrev pub with_values :
    {A D V : Type 0} → (List A → D → Outcome V × D) → D → Outcome (List A) → Outcome V × D
with_values f db o = elim o.error [
  | some e ↦ (fail e, db)
  | none ↦ elim o.value [ none ↦ f [] db | some vals ↦ f vals db ]
]

module _ {D A R Q : Type 0} where
  unfoldable pub exec_underlying :
      ConnBelow D A R Q → Context → Bytes → List (NamedValue A) → D → Outcome R × D
  unfolding named_values_to_values
  exec_underlying c ctx query args db = elim c.exec_context [
    | some f ↦ f ctx query args db
    | none ↦ elim c.exec [
      | some f ↦ with_values (f query) db (named_values_to_values args)
      | none ↦ (fail err_skip, db)
    ]
  ]

  unfoldable pub query_underlying :
      ConnBelow D A R Q → Context → Bytes → List (NamedValue A) → D → Outcome Q × D
  unfolding named_values_to_values
  query_underlying c ctx query args db = elim c.query_context [
    | some f ↦ f ctx query args db
    | none ↦ elim c.query [
      | some f ↦ with_values (f query) db (named_values_to_values args)
      | none ↦ (fail err_skip, db)
    ]
  ]

-- What ExecContext and QueryContext do with the outcome below.
abbrev pub settle :
    {D V : Type 0}
    → Detector
    → Env
    → Context
    → Bytes
    → Outcome V × D
    → Tracked
    → Outcome V × D × Tracked
settle det env ctx query (o, db) (s, w) =
    if is_skip o.error
    then (fail err_skip, db, (s, w))
    else if is_bad_conn o.error
    then (record o { value = none }, db, (s, w))
    else (o, db, observe det env ctx query s w)

-- What the executions of a statement do with the outcome below.
abbrev pub settle_stmt :
    {D V : Type 0}
    → Detector
    → Env
    → Context
    → Stmt
    → Outcome V × D
    → Tracked
    → Outcome V × D × Tracked
settle_stmt det env ctx stmt (o, db) (s, w) =
    if is_bad_conn o.error
    then (record o { value = none }, db, (s, w))
    else (o, db, observe_stmt det env ctx stmt s w)

module _ {D A R Q : Type 0} (det : Detector) (env : Env) where
  unfoldable pub conn_begin : ConnBelow D A R Q → D → Tracked → Outcome (TxBelow D) × D × Tracked
  unfolding opened
  conn_begin c db st = opened det env background (c.begin_plain db) st

  unfoldable pub conn_begin_tx :
      ConnBelow D A R Q → Context → TxOptions → D → Tracked → Outcome (TxBelow D) × D × Tracked
  unfolding opened
  conn_begin_tx c ctx opts db st = elim c.begin_with [
    | some f ↦ opened det env ctx (f ctx opts db) st
    | none ↦
        if not (is_default opts)
        then (
          fail (
              new_error (
                codes
                  "txnpure: underlying driver does not support non-default transaction options")),
          db,
          st,
        )
        else opened det env ctx (c.begin_plain db) st
  ]

  unfoldable pub conn_exec_context :
      ConnBelow D A R Q
      → Context
      → Bytes
      → List (NamedValue A)
      → D
      → Tracked
      → Outcome R × D × Tracked
  unfolding exec_underlying observe
  conn_exec_context c ctx query args db st =
      settle det env ctx query (exec_underlying c ctx query args db) st

  unfoldable pub conn_query_context :
      ConnBelow D A R Q
      → Context
      → Bytes
      → List (NamedValue A)
      → D
      → Tracked
      → Outcome Q × D × Tracked
  unfolding query_underlying observe
  conn_query_context c ctx query args db st =
      settle det env ctx query (query_underlying c ctx query args db) st

  -- Prepare and PrepareContext: the statement below and what is kept of it. A driver returns a
  -- statement or an error: of one that returns neither the wrapper keeps a statement that panics at
  -- its first use, and here there is none.
  abbrev pub prepared :
      Bytes → Outcome (StmtBelow D A R Q) × D → Outcome (StmtBelow D A R Q × Stmt) × D
  prepared query (o, db) = elim o.error [
    | some e ↦ (fail e, db)
    | none ↦ elim o.value [
      | none ↦ (record { value = none; error = none }, db)
      | some below ↦ (succeed (below, wrap_stmt det query), db)
    ]
  ]

  unfoldable pub conn_prepare_context :
      ConnBelow D A R Q → Context → Bytes → D → Outcome (StmtBelow D A R Q × Stmt) × D
  unfolding wrap_stmt
  conn_prepare_context c ctx query db = elim c.prepare_context [
    | some f ↦ prepared query (f ctx query db)
    | none ↦ prepared query (c.prepare query db)
  ]

  unfoldable pub stmt_exec :
      StmtBelow D A R Q → Stmt → List A → D → Tracked → Outcome R × D × Tracked
  unfolding observe_stmt
  stmt_exec below stmt args db st = settle_stmt det env background stmt (below.exec args db) st

  unfoldable pub stmt_exec_context :
      StmtBelow D A R Q
      → Context
      → Stmt
      → List (NamedValue A)
      → D
      → Tracked
      → Outcome R × D × Tracked
  unfolding observe_stmt named_values_to_values
  stmt_exec_context below ctx stmt args db st = elim below.exec_context [
    | some f ↦ settle_stmt det env ctx stmt (f ctx args db) st
    | none ↦
        settle_stmt det env ctx stmt (with_values below.exec db (named_values_to_values args)) st
  ]

  unfoldable pub stmt_query :
      StmtBelow D A R Q → Stmt → List A → D → Tracked → Outcome Q × D × Tracked
  unfolding observe_stmt
  stmt_query below stmt args db st = settle_stmt det env background stmt (below.query args db) st

  unfoldable pub stmt_query_context :
      StmtBelow D A R Q
      → Context
      → Stmt
      → List (NamedValue A)
      → D
      → Tracked
      → Outcome Q × D × Tracked
  unfolding observe_stmt named_values_to_values
  stmt_query_context below ctx stmt args db st = elim below.query_context [
    | some f ↦ settle_stmt det env ctx stmt (f ctx args db) st
    | none ↦
        settle_stmt det env ctx stmt (with_values below.query db (named_values_to_values args)) st
  ]
