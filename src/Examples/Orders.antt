-- ===== src/Examples/Orders.antt =====
-- examples/enqueue/main.go: a job and a mail inside a transaction, and an eviction that is allowed.
use go_txnpure.Base.{pos, nat_eq, Bytes, codes, bytes_Eq, false, Option, none, some, [], ◌∷◌}
use go_txnpure.Allow.{allow_in_transaction_here}
use go_txnpure.Detector.{with_reporter, new, in_scope, do_checked}
use go_txnpure.Driver.Below.{Error, Outcome, TxOptions, TxBelow}
use go_txnpure.Driver.Conn.{conn_begin_tx, tx_commit, tx_rollback}
use go_txnpure.Driver.Fallback.{sql_exec}
use go_txnpure.Driver.Forward.{connector_connect}
use go_txnpure.Driver.Null.{new_null_db}
use go_txnpure.Identity.{Op}
use go_txnpure.Reporter.{logging}
use go_txnpure.Session.{Session}
use go_txnpure.State.{Env, Context, background, World, Detector}

-- The null database has no state, and takes no arguments here.
abbrev pub Nothing : Type 0
Nothing = Unit

abbrev pub op_of : Bytes → Bytes → Op
op_of kind name = record { kind = kind; name = name }

abbrev pub no_options : TxOptions
no_options = record { isolation = 0; read_only = false }

-- A step that may fail, and what follows if it does not.
abbrev pub and_then {ℓ} :
    {V : Type ℓ} → Outcome V → World → (V → World → Option Error × World) → Option Error × World
and_then o w next = elim o.error [
  | some e ↦ (some e, w)
  | none ↦ elim o.value [ none ↦ (none, w) | some v ↦ next v w ]
]

-- The deferred rollback, behind an error.
abbrev pub rolled_back : TxBelow Nothing → Session → Error → World → Option Error × World
rolled_back tx s e w = let (ignored, db, st) = tx_rollback tx tt (s, w) in (some e, st.1)

-- The commit, behind which the deferred rollback does not reach the driver.
abbrev pub committed : TxBelow Nothing → Session → World → Option Error × World
committed tx s w = let (e, db, st) = tx_commit tx tt (s, w) in (e, st.1)

-- The statement on the other database, which opens a connection for it.
unfoldable pub evict : Detector → Env → Context → World → Option Error × World
unfolding connector_connect new_null_db
evict det env ctx w =
    let (conn, db) = connector_connect (new_null_db {D = Nothing} {A = Nothing} det) ctx tt in
    and_then conn w (λ c w1.
      let (o, db, (s, w2)) =
        sql_exec det env c.conn ctx (codes "DELETE FROM order_cache WHERE order_id = 1") [] tt
          (c.session, w1) in
      (o.error, w2))

-- What stands behind the begin; `job` and `mail` are what the queue and the mail client return.
unfoldable pub place_order :
    Option Error
    → Option Error
    → Detector
    → Env
    → Context
    → TxBelow Nothing
    → Session
    → World
    → Option Error × World
unfolding do_checked allow_in_transaction_here evict tx_commit tx_rollback
place_order job mail det env ctx tx s w =
    let (e1, w1) =
      do_checked det env ctx (op_of (codes "enqueue") (codes "orders:process"))
        (λ ctx' w'. (job, w')) [] w in
    elim e1 [
      | some e ↦ rolled_back tx s e w1
      | none ↦
          let (e2, w2) =
            do_checked det env ctx (op_of (codes "mail") (codes "order_confirmation"))
              (λ ctx' w'. (mail, w')) [] w1 in
          elim e2 [
            | some e ↦ rolled_back tx s e w2
            | none ↦
                let (actx, w3) =
                  allow_in_transaction_here ctx
                    (codes "cache eviction is best-effort, TTL covers rollback (TICKET-99)")
                    (pos 1 ∷ []) w2 in
                let (e3, w4) = evict det env actx w3 in
                elim e3 [ some e ↦ rolled_back tx s e w4 | none ↦ committed tx s w4 ]
          ]
    ]

-- The function that runs in the scope.
unfoldable pub create_order :
    Option Error → Option Error → Detector → Env → Context → World → Option Error × World
unfolding connector_connect new_null_db conn_begin_tx place_order
create_order job mail det env ctx w =
    let (conn, db) = connector_connect (new_null_db {D = Nothing} {A = Nothing} det) ctx tt in
    and_then conn w (λ c w1.
      let (o, db, (s, w2)) = conn_begin_tx det env c.conn ctx no_options tt (c.session, w1) in
      and_then o w2 (λ tx w3. place_order job mail det env ctx tx s w3))

-- main, up to its exit code; `later` is what the runtime gives the finish of the scope.
unfoldable pub enqueue : Option Error → Option Error → Env → Env → Option Error × World
unfolding new in_scope create_order
enqueue job mail env later =
    let (det, w) = new (with_reporter (logging [] ∷ []) ∷ []) in
    in_scope det env later background (codes "CreateOrder") (create_order job mail det env) [] w
