-- ===== src/Driver/Fallback.antt =====
-- driver.go under database/sql, which prepares a statement when the fast path returns ErrSkip, on one
-- connection.
use go_txnpure.Base.{
  if◌then◌else◌, nat_eq, Bytes, bytes_Eq, ◌≡◌, refl, ◌⊎◌, inl, inr, Bool, true, false, Option, none,
  some, List,
}
use go_txnpure.Driver.Below.{
  Error, Outcome, fail, err_skip, is_skip, is_bad_conn, NamedValue, StmtBelow, ConnBelow,
}
use go_txnpure.Driver.Conn.{
  Tracked, settle, settle_stmt, prepared, conn_exec_context, conn_query_context,
  conn_prepare_context, stmt_exec_context, stmt_query_context,
}
use go_txnpure.Driver.Parity.{observe_stmt-wrap_stmt}
use go_txnpure.Driver.Stmt.{Stmt, wrap_stmt, observe_stmt}
use go_txnpure.Session.{observe}
use go_txnpure.State.{Env, Context, Detector}

module _ {D A R Q : Type 0} where
  -- The fallback, if the fast path is skipped: prepare the statement and execute it.
  abbrev pub fall_back :
      {V : Type 0}
      → (StmtBelow D A R Q → Stmt → D → Tracked → Outcome V × D × Tracked)
      → (D → Outcome (StmtBelow D A R Q × Stmt) × D)
      → Outcome V × D × Tracked
      → Outcome V × D × Tracked
  fall_back execute prepare (o, db, st) =
      if is_skip o.error
      then (let (p, db') = prepare db in
          elim p.error [
            | some e ↦ (fail e, db', st)
            | none ↦ elim p.value [
              | none ↦ (record { value = none; error = none }, db', st)
              | some (below, stmt) ↦ execute below stmt db' st
            ]
          ])
      else (o, db, st)

  -- A statement without rows, and one with rows, as database/sql runs them.
  abbrev pub sql_exec :
      Detector
      → Env
      → ConnBelow D A R Q
      → Context
      → Bytes
      → List (NamedValue A)
      → D
      → Tracked
      → Outcome R × D × Tracked
  sql_exec det env c ctx query args db st =
      fall_back (λ below stmt. stmt_exec_context det env below ctx stmt args)
        (conn_prepare_context det env c ctx query)
        (conn_exec_context det env c ctx query args db st)

  abbrev pub sql_query :
      Detector
      → Env
      → ConnBelow D A R Q
      → Context
      → Bytes
      → List (NamedValue A)
      → D
      → Tracked
      → Outcome Q × D × Tracked
  sql_query det env c ctx query args db st =
      fall_back (λ below stmt. stmt_query_context det env below ctx stmt args)
        (conn_prepare_context det env c ctx query)
        (conn_query_context det env c ctx query args db st)

-- One observation of the query, unless the error is ErrBadConn; or none, and then no value.
abbrev pub ObservedOnce :
    {D V : Type 0} → Detector → Env → Context → Bytes → Tracked → Outcome V × D × Tracked → Type 0
ObservedOnce det env ctx query (s, w) (o, db, st) =
    ((st ≡ observe det env ctx query s w) × (is_bad_conn o.error ≡ false))
    ⊎ ((st ≡ (s, w)) × (o.value ≡ none))

pub settle_stmt-ObservedOnce :
    {D V : Type 0} (det : Detector) (env : Env) (ctx : Context) (query : Bytes) (r : Outcome V × D)
    (st : Tracked)
    → ObservedOnce det env ctx query st (settle_stmt det env ctx (wrap_stmt det query) r st)
settle_stmt-ObservedOnce det env ctx query (o, db) (s, w) = at (is_bad_conn o.error) refl
  where
    at :
        (b : Bool)
        → is_bad_conn o.error ≡ b
        → ObservedOnce det env ctx query
            (s, w)
            (if b
              then (record o { value = none }, db, (s, w))
              else (o, db, observe_stmt det env ctx (wrap_stmt det query) s w))
    at true e = inr (refl, refl)
    at false e = inl (observe_stmt-wrap_stmt det env ctx query s w, e)

-- The executions that a fallback may end in.
abbrev pub Executes :
    {D A R Q V : Type 0}
    → Detector
    → Env
    → Context
    → Bytes
    → (StmtBelow D A R Q → Stmt → D → Tracked → Outcome V × D × Tracked)
    → Type 0
Executes {D} {A} {R} {Q} {V} det env ctx query execute =
    (below : StmtBelow D A R Q) (db : D) (st : Tracked)
    → ObservedOnce det env ctx query st (execute below (wrap_stmt det query) db st)

pub fall_back-ObservedOnce :
    {D A R Q V : Type 0} (det : Detector) (env : Env) (ctx : Context) (query : Bytes)
    (execute : StmtBelow D A R Q → Stmt → D → Tracked → Outcome V × D × Tracked)
    (prepare : D → Outcome (StmtBelow D A R Q) × D) (r : Outcome V × D) (st : Tracked)
    → Executes det env ctx query execute
    → ObservedOnce det env ctx query st (
        fall_back execute
          (λ db. prepared det env query (prepare db))
          (settle det env ctx query r st))
fall_back-ObservedOnce {D} {A} {R} {Q} {V} det env ctx query execute prepare (o, db) (s, w) runs =
    at (is_skip o.error) refl (is_bad_conn o.error) refl
  where
    below : Outcome (StmtBelow D A R Q) × D
    below = prepare db

    slow :
        (e : Option Error) (v : Option (StmtBelow D A R Q)) (db' : D)
        → ObservedOnce det env ctx query
            (s, w)
            (fall_back execute
              (λ _. prepared det env query (record { value = v; error = e }, db'))
              (fail err_skip, db, (s, w)))
    slow (some e) v db' = inr (refl, refl)
    slow none none db' = inr (refl, refl)
    slow none (some b) db' = runs b db' (s, w)

    at :
        (skip : Bool)
        → is_skip o.error ≡ skip
        → (bad : Bool) → is_bad_conn o.error ≡ bad
        → ObservedOnce det env ctx query
            (s, w)
            (fall_back execute
              (λ db. prepared det env query (prepare db))
              (if skip
                then (fail err_skip, db, (s, w))
                else if bad
                then (record o { value = none }, db, (s, w))
                else (o, db, observe det env ctx query s w)))
    at true h bad e = slow below.0.error below.0.value below.1
    at false h true e = rw h (inr (refl, refl))
    at false h false e = rw h (inl (refl, e))
