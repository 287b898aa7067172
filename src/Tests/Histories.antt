-- ===== src/Tests/Histories.antt =====
-- Histories of calls, with two connections in one scope.
use go_txnpure.Base.{
  length, get_elem?, pos, nat_eq, codes, bytes_Eq, ◌≤◌, ◌≡◌, refl, none, some, [], arith,
}
use go_txnpure.Detector.{finish_scope}
use go_txnpure.System.Finished.{finish_scope-once}
use go_txnpure.Identity.{key_Eq}
use go_txnpure.Check.{check}
use go_txnpure.Classify.{default_classifier}
use go_txnpure.Detector.{Request, new, round_trip, default_detector, default_request_name, http_op}
use go_txnpure.Detector.RoundTrip.{round_trip-check}
use go_txnpure.Driver.Parity.{observe_stmt-wrap_stmt}
use go_txnpure.Driver.Stmt.{wrap_stmt, observe_stmt}
use go_txnpure.Session.{new_session, observe, report_if_cross_conn}
use go_txnpure.State.{scope_and_mark_from}
use go_txnpure.System.{run}
use go_txnpure.System.Counters.{counters}
use go_txnpure.System.Invariant.{count_open}
use go_txnpure.System.CrossConn.{expected_write, cross_conn_exact}
use go_txnpure.System.Histories.{reached, run_counters}
use go_txnpure.Tests.{checking, env, history, insert_orders, pay}

history_counts : counters (reached [] history).world 0 ≡ pos 1
unfolding run new default_classifier
history_counts = refl

run_counters_example :
    (counters (reached [] history).world 0 ≡ pos (count_open 0 (reached [] history).sessions))
    × (count_open 0 (reached [] history).sessions ≤ length (reached [] history).sessions)
run_counters_example = run_counters [] history 0 (omega arith)

second_session : get_elem? (reached [] history).sessions 1 ≡ some new_session
unfolding run new default_classifier
second_session = refl

cross_conn_exact_example :
    report_if_cross_conn default_detector env pay insert_orders new_session
      (reached [] history).world
    ≡ expected_write default_detector env 0 none insert_orders 1
        (reached [] history).sessions
        (reached [] history).world
cross_conn_exact_example =
    cross_conn_exact [] history default_detector env pay 0 none 1 new_session insert_orders
      (omega arith) (unfold scope_and_mark_from in refl) second_session

observe_stmt-wrap_stmt_example :
    observe_stmt checking env pay
      (wrap_stmt checking insert_orders)
      new_session
      (reached [] history).world
    ≡ observe checking env pay insert_orders new_session (reached [] history).world
observe_stmt-wrap_stmt_example =
    observe_stmt-wrap_stmt checking env pay insert_orders new_session (reached [] history).world

abbrev request : Request
request = record {
  context = pay;
  http_method = codes "GET";
  url_host = [];
  host = codes "a.example";
}

round_trip-check_example :
    round_trip default_detector env default_request_name
      (λ req w. (req.host, w))
      request
      (reached [] history).world
    ≡ (
      codes "a.example",
      check default_detector env pay
          (http_op (default_request_name request))
          []
          (reached [] history).world,
    )
round_trip-check_example =
    round_trip-check default_detector env default_request_name (λ req w. (req.host, w)) request
      (reached [] history).world

finish_scope-once_example :
    (let after =
        run checking
          (record (reached [] history) {
            world = finish_scope checking env 0 (reached [] history).world;
          })
          history in
      finish_scope default_detector env 0 after.world ≡ after.world)
finish_scope-once_example =
    finish_scope-once checking default_detector env env 0 (reached [] history) history
      (unfold run new default_classifier in omega arith)
