-- ===== src/Tests/Programs.antt =====
-- The example programs, with a mail client that fails and a service that answers.
use go_txnpure.Base.{nat_eq, codes, bytes_Eq, ◌≡◌, none, some, [], ◌∷◌}
use go_txnpure.Driver.Below.{new_error}
use go_txnpure.Examples.Checkout.{nethttp}
use go_txnpure.Examples.Orders.{enqueue}
use go_txnpure.Examples.Reported.{
  Logs, order_log, first_error, checkout_record, status_after, enqueue-nethttp-Logs,
}
use go_txnpure.Tests.{env}

enqueue-nethttp-Logs_example :
    (let (e, w) = enqueue none (some (new_error (codes "no route"))) env env in
      (e ≡ first_error none (some (new_error (codes "no route")))) × Logs w (order_log env none))
    × (let (status, w) = nethttp (codes "127.0.0.1:80") none env env in
        (status ≡ status_after none) × Logs w (checkout_record env (codes "127.0.0.1:80") ∷ []))
enqueue-nethttp-Logs_example =
    enqueue-nethttp-Logs none (some (new_error (codes "no route"))) none (codes "127.0.0.1:80") env
      env
