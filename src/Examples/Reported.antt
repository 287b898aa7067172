-- ===== src/Examples/Reported.antt =====
-- examples/: what the example programs log.
use go_txnpure.Base.{
  pos, nat_eq, Bytes, codes, bytes_eq, bytes_Eq, lookup, insert, ℕ, ◌≡◌, refl, Option, none, some,
  List, [], ◌∷◌,
}
use go_txnpure.Classify.{default_classifier}
use go_txnpure.Detector.{default_detector, http_op, default_request_name}
use go_txnpure.Driver.Below.{Error}
use go_txnpure.Examples.Checkout.{
  request_to, status_ok, status_bad_gateway, checkout_pattern, nethttp,
}
use go_txnpure.Examples.Orders.{op_of, enqueue}
use go_txnpure.Driver.Conn.{conn_exec_context}
use go_txnpure.Identity.{Op, key_eq}
use go_txnpure.Report.{Violation}
use go_txnpure.Reporter.{logging}
use go_txnpure.Slog.{LogRecord, log_violation}
use go_txnpure.Stack.{capture_stack}
use go_txnpure.State.{Env, background, World}

-- The first call of an operation in a scope with one open transaction.
abbrev pub first_call : Env → Bytes → Op → Violation
first_call env scope op = record {
  op = op;
  scope = scope;
  open_txs = pos 1;
  call = pos 1;
  allowed_calls = [];
  stack = capture_stack default_detector.stack_depth env.callers;
  attrs = [];
  time = env.time;
}

-- The reporters of a program that has one logger, and the counter of its scope.
abbrev pub Logs : World → List LogRecord → Type 0
Logs w records = (w.reporters ≡ logging records ∷ []) × ((w.scope_at 0).open_txs ≡ pos 0)

abbrev pub job_record : Env → LogRecord
job_record env =
    log_violation
      (first_call env (codes "CreateOrder") (op_of (codes "enqueue") (codes "orders:process")))

abbrev pub mail_record : Env → LogRecord
mail_record env =
    log_violation
      (first_call env (codes "CreateOrder") (op_of (codes "mail") (codes "order_confirmation")))

-- The job comes first; the mail is not sent if the job has failed.
abbrev pub order_log : Env → Option Error → List LogRecord
order_log env none = job_record env ∷ mail_record env ∷ []
order_log env (some e) = job_record env ∷ []

abbrev pub first_error : Option Error → Option Error → Option Error
first_error none mail = mail
first_error (some e) mail = some e

enqueue-Logs :
    (job mail : Option Error) (env later : Env)
    → (let (e, w) = enqueue job mail env later in
        (e ≡ first_error job mail) × Logs w (order_log env job))
unfolding enqueue default_classifier conn_exec_context insert key_eq bytes_eq lookup
enqueue-Logs none none env later = (refl, (refl, refl))
enqueue-Logs none (some e) env later = (refl, (refl, refl))
enqueue-Logs (some e) mail env later = (refl, (refl, refl))

abbrev pub checkout_record : Env → Bytes → LogRecord
checkout_record env external = log_violation (
    first_call env checkout_pattern
      (http_op (default_request_name (request_to external background))))

abbrev pub status_after : Option Error → ℕ
status_after none = status_ok
status_after (some e) = status_bad_gateway

nethttp-Logs :
    (external : Bytes) (answer : Option Error) (env later : Env)
    → (let (status, w) = nethttp external answer env later in
        (status ≡ status_after answer) × Logs w (checkout_record env external ∷ []))
unfolding nethttp default_classifier insert key_eq bytes_eq lookup
nethttp-Logs external none env later = (refl, (refl, refl))
nethttp-Logs external (some e) env later = (refl, (refl, refl))

-- Whatever the job queue, the mail client and the external service answer, and wherever and when it
-- runs: the order program logs its job and, unless the job fails, its mail as violations, but not the
-- eviction, which is allowed; the checkout program logs its request as the only violation. The errors
-- come back to the caller, and no transaction is left open.
pub enqueue-nethttp-Logs :
    (job mail answer : Option Error) (external : Bytes) (env later : Env)
    → (let (e, w) = enqueue job mail env later in
        (e ≡ first_error job mail) × Logs w (order_log env job))
      × (let (status, w) = nethttp external answer env later in
          (status ≡ status_after answer) × Logs w (checkout_record env external ∷ []))
enqueue-nethttp-Logs job mail answer external env later =
    (enqueue-Logs job mail env later, nethttp-Logs external answer env later)
