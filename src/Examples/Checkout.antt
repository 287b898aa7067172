-- ===== src/Examples/Checkout.antt =====
-- examples/nethttp/main.go: the middleware that opens a scope for a route, and a handler that calls
-- an external service inside a transaction. The router and the external service are parameters.
use go_txnpure.Base.{nat_eq, Bytes, codes, bytes_Eq, ℕ, Option, none, some, [], ◌∷◌}
use go_txnpure.Detector.{with_reporter, new, start_scope, finish_scope, Request}
use go_txnpure.Detector.Transport.{Transport, wrap_round_tripper, send_wrapped}
use go_txnpure.Driver.Below.{Error, Outcome, TxBelow}
use go_txnpure.Driver.Conn.{conn_begin_tx, tx_commit, tx_rollback}
use go_txnpure.Driver.Forward.{connector_connect}
use go_txnpure.Driver.Null.{new_null_db}
use go_txnpure.Examples.Orders.{Nothing, no_options}
use go_txnpure.Reporter.{logging}
use go_txnpure.Session.{Session}
use go_txnpure.State.{Env, Context, background, World, Detector}

abbrev pub or_unmatched : Bytes → Bytes
or_unmatched [] = codes "unmatched"
or_unmatched (c ∷ pattern) = c ∷ pattern

-- `pattern_of` is the pattern that the router matches, and `serve` its ServeHTTP.
unfoldable pub scope_middleware :
    {R : Type 0}
    → Detector
    → Env
    → Env
    → (Request → Bytes)
    → (Request → World → R × World)
    → Request
    → World
    → R × World
unfolding start_scope finish_scope
scope_middleware det env later pattern_of serve req w =
    let (ctx, w1) = start_scope det env req.context (or_unmatched (pattern_of req)) [] w in
    let (r, w2) = serve (record req { context = ctx }) w1 in
    (r, finish_scope det later w.next_scope w2)

-- The request to the external service, in the context of the handler.
abbrev pub request_to : Bytes → Context → Request
request_to external ctx = record {
  context = ctx;
  http_method = codes "GET";
  url_host = external;
  host = [];
}

abbrev pub status_ok : ℕ
status_ok = 200

abbrev pub status_internal_error : ℕ
status_internal_error = 500

abbrev pub status_bad_gateway : ℕ
status_bad_gateway = 502

-- The deferred rollback reaches the driver unless the transaction is committed.
abbrev pub roll_back : TxBelow Nothing → Session → ℕ → World → ℕ × World
roll_back tx s status w = let (ignored, db, st) = tx_rollback tx tt (s, w) in (status, st.1)

abbrev pub commit_or_fail : TxBelow Nothing → Session → World → ℕ × World
commit_or_fail tx s w =
    let (e, db, st) = tx_commit tx tt (s, w) in
    elim e [ some e' ↦ (status_internal_error, st.1) | none ↦ (status_ok, st.1) ]

-- What stands behind the begin. The service answers a request, or there is an error.
unfoldable pub charge :
    Transport (Option Error) → Env → Bytes → Context → TxBelow Nothing → Session → World → ℕ × World
unfolding send_wrapped tx_rollback tx_commit
charge client env external ctx tx s w =
    let (e, w1) = send_wrapped client env (request_to external ctx) w in
    elim e [ some e' ↦ roll_back tx s status_bad_gateway w1 | none ↦ commit_or_fail tx s w1 ]

-- A step that may fail, and what follows if it does not.
abbrev pub or_internal_error {ℓ} :
    {V : Type ℓ} → Outcome V → World → (V → World → ℕ × World) → ℕ × World
or_internal_error o w next = elim o.error [
  | some e ↦ (status_internal_error, w)
  | none ↦ elim o.value [ none ↦ (status_internal_error, w) | some v ↦ next v w ]
]

-- The handler of POST /checkout, with the status that it writes.
unfoldable pub checkout :
    Detector → Transport (Option Error) → Env → Bytes → Request → World → ℕ × World
unfolding connector_connect new_null_db conn_begin_tx charge
checkout det client env external req w =
    let (conn, db) =
      connector_connect (new_null_db {D = Nothing} {A = Nothing} det) req.context tt in
    or_internal_error conn w (λ c w1.
      let (o, db, (s, w2)) =
        conn_begin_tx det env c.conn req.context no_options tt (c.session, w1) in
      or_internal_error o w2 (λ tx w3. charge client env external req.context tx s w3))

-- The request to the server, which the router matches.
abbrev pub checkout_request : Request
checkout_request = record {
  context = background;
  http_method = codes "POST";
  url_host = [];
  host = codes "example.com";
}

abbrev pub checkout_pattern : Bytes
checkout_pattern = codes "POST /checkout"

-- main; `answer` is the error of the request to the external service, if there is one.
unfoldable pub nethttp : Bytes → Option Error → Env → Env → ℕ × World
unfolding new wrap_round_tripper scope_middleware checkout
nethttp external answer env later =
    let (det, w) = new (with_reporter (logging [] ∷ []) ∷ []) in
    let client = wrap_round_tripper (λ req w'. (answer, w')) det none [] in
    scope_middleware det env later (λ req. checkout_pattern) (checkout det client env external)
      checkout_request w
