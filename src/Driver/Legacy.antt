-- ===== src/Driver/Legacy.antt =====
-- driver.go: a driver below that takes plain values only.
use go_txnpure.Base.{
  if◌then◌else◌, any, nat_eq, Bytes, codes, bytes_Eq, ◌≡◌, refl, ap, ◌∙◌, Bool, true, false, ◌||◌,
  none, some, List, [], ◌∷◌,
}
use go_txnpure.Driver.Below.{
  Error, new_error, Outcome, fail, succeed, NamedValue, StmtBelow, ConnBelow,
}
use go_txnpure.Driver.Conn.{
  Tracked, settle, settle_stmt, put_value, with_values, named_values_to_values, exec_underlying,
  query_underlying, conn_exec_context, conn_query_context, stmt_exec_context, stmt_query_context,
}
use go_txnpure.Driver.Stmt.{Stmt}
use go_txnpure.State.{Env, Context, Detector}

abbrev pub is_named : {A : Type 0} → NamedValue A → Bool
is_named nv = elim nv.name [ [] ↦ false | c ∷ name ↦ true ]

abbrev pub values_of : {A : Type 0} → List (NamedValue A) → List A
values_of [] = []
values_of (nv ∷ named) = nv.value ∷ values_of named

abbrev pub named_error : Error
named_error =
    new_error (codes "txnpure: named parameters are not supported by the underlying driver")

-- A call with plain values: all of them in their order, or an error and no call at all.
abbrev pub plainly :
    {A D V : Type 0} → (List A → D → Outcome V × D) → List (NamedValue A) → D → Outcome V × D
plainly f args db = if any is_named args then (fail named_error, db) else f (values_of args) db

named_values_to_values-plain :
    {A : Type 0} (args : List (NamedValue A))
    → named_values_to_values args
      ≡ (if any is_named args then fail named_error else succeed (values_of args))
unfolding named_values_to_values
named_values_to_values-plain [] = refl
named_values_to_values-plain {A} (nv ∷ args) = at nv.name (named_values_to_values-plain args)
  where
    added :
        (b : Bool)
        → put_value nv.value (if b then fail named_error else succeed (values_of args))
          ≡ (if b then fail named_error else succeed (nv.value ∷ values_of args))
    added true = refl
    added false = refl

    at :
        (name : Bytes)
        → named_values_to_values args
          ≡ (if any is_named args then fail named_error else succeed (values_of args))
        → elim name [
          | [] ↦ put_value nv.value (named_values_to_values args)
          | c ∷ rest ↦ fail named_error
        ]
          ≡ (if (elim name [ [] ↦ false | c ∷ rest ↦ true ]) || any is_named args
              then fail named_error
              else succeed (nv.value ∷ values_of args))
    at [] e = ap (put_value nv.value) e ∙ added (any is_named args)
    at (c ∷ rest) e = refl

pub with_values-plainly :
    {A D V : Type 0} (f : List A → D → Outcome V × D) (args : List (NamedValue A)) (db : D)
    → with_values f db (named_values_to_values args) ≡ plainly f args db
with_values-plainly {A} {D} {V} f args db =
    ap (with_values f db) (named_values_to_values-plain args) ∙ at (any is_named args)
  where
    at :
        (b : Bool)
        → with_values f db (if b then fail named_error else succeed (values_of args))
          ≡ (if b then (fail named_error, db) else f (values_of args) db)
    at true = refl
    at false = refl

module _ {D A R Q : Type 0} where
  exec_underlying-plainly :
      (c : ConnBelow D A R Q) (f : Bytes → List A → D → Outcome R × D) (ctx : Context)
      (query : Bytes) (args : List (NamedValue A)) (db : D)
      → c.exec_context ≡ none
      → c.exec ≡ some f
      → exec_underlying c ctx query args db ≡ plainly (f query) args db
  unfolding exec_underlying
  exec_underlying-plainly c f ctx query args db h e =
      rw (h, e) (with_values-plainly (f query) args db)

  query_underlying-plainly :
      (c : ConnBelow D A R Q) (f : Bytes → List A → D → Outcome Q × D) (ctx : Context)
      (query : Bytes) (args : List (NamedValue A)) (db : D)
      → c.query_context ≡ none
      → c.query ≡ some f
      → query_underlying c ctx query args db ≡ plainly (f query) args db
  unfolding query_underlying
  query_underlying-plainly c f ctx query args db h e =
      rw (h, e) (with_values-plainly (f query) args db)

  -- A connection and a statement below that take plain values only.
  pub record IsLegacy (c : ConnBelow D A R Q) (below : StmtBelow D A R Q) : Type 0 where
    pub exec_plain : Bytes → List A → D → Outcome R × D
    pub has_exec : c.exec ≡ some exec_plain
    pub no_exec_context : c.exec_context ≡ none
    pub query_plain : Bytes → List A → D → Outcome Q × D
    pub has_query : c.query ≡ some query_plain
    pub no_query_context : c.query_context ≡ none
    pub no_stmt_exec_context : below.exec_context ≡ none
    pub no_stmt_query_context : below.query_context ≡ none

  -- Through a connection and a statement that take plain values only, a call with a named value fails
  -- with an error of the wrapper before the driver is called, so the database stays as it is; without
  -- one the driver gets all the values in their order. Either way the statement is then observed or
  -- not as after any other answer of the driver.
  pub conn_exec_context-plainly :
      (det : Detector) (env : Env) (c : ConnBelow D A R Q) (below : StmtBelow D A R Q)
      (ctx : Context) (query : Bytes) (stmt : Stmt) (args : List (NamedValue A)) (db : D)
      (st : Tracked) (l : IsLegacy c below)
      → (conn_exec_context det env c ctx query args db st
          ≡ settle det env ctx query (plainly (l.exec_plain query) args db) st)
        × (conn_query_context det env c ctx query args db st
            ≡ settle det env ctx query (plainly (l.query_plain query) args db) st)
        × (stmt_exec_context det env below ctx stmt args db st
            ≡ settle_stmt det env ctx stmt (plainly below.exec args db) st)
        × (stmt_query_context det env below ctx stmt args db st
            ≡ settle_stmt det env ctx stmt (plainly below.query args db) st)
  unfolding conn_exec_context conn_query_context stmt_exec_context stmt_query_context
  conn_exec_context-plainly det env c below ctx query stmt args db st l = (
    ap (λ r. settle det env ctx query r st)
        (exec_underlying-plainly c l.exec_plain ctx query args db l.no_exec_context l.has_exec),
    ap (λ r. settle det env ctx query r st)
        (query_underlying-plainly c l.query_plain ctx query args db l.no_query_context l.has_query),
    rw l.no_stmt_exec_context
        (ap (λ r. settle_stmt det env ctx stmt r st) (with_values-plainly below.exec args db)),
    rw l.no_stmt_query_context
        (ap (λ r. settle_stmt det env ctx stmt r st) (with_values-plainly below.query args db)),
  )
