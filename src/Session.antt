-- ===== src/Session.antt =====
-- session.go: the transaction state machine of one connection.
use go_txnpure.Base.{
  ◌==◌, if◌then◌else◌, pos, leb_ℤ, eq_ℤ, inc64, dec64, nat_eq, Bytes, codes, bytes_Eq, ℕ, Bool,
  true, false, not, ◌&&◌, Option, none, some, List, [], ◌∷◌,
}
use go_txnpure.Allow.{report_stale_allow}
use go_txnpure.Check.{decide_and_report, outside_region, no_config, run_statement_checkers}
use go_txnpure.Classify.Target.{cross_conn_op_name}
use go_txnpure.Classify.{StatementKind, other, begin, commit, rollback, write}
use go_txnpure.Identity.{Op}
use go_txnpure.Report.{unscoped_tx}
use go_txnpure.Stack.{capture_stack}
use go_txnpure.State.{
  Env, Context, scope_and_mark_from, scope_from, World, Detector, put_scope, report,
}

-- `tx_scope` is the address of the scope, or nil.
pub record Session : Type 0 where
  pub in_tx : Bool
  pub tx_scope : Option ℕ

abbrev pub new_session : Session
new_session = record { in_tx = false; tx_scope = none }

unfoldable pub report_unscoped_tx : Detector → Env → World → World
unfolding report capture_stack
report_unscoped_tx d env w =
    if d.report_unscoped
    then report env
        (unscoped_tx (record { stack = capture_stack d.stack_depth env.callers; time = env.time }))
        w
    else w

-- openTxs.Add(1) and openTxs.Add(-1)
unfoldable pub count_up : ℕ → World → World
unfolding inc64
count_up i w = put_scope i (record (w.scope_at i) { open_txs = inc64 (w.scope_at i).open_txs }) w

unfoldable pub count_down : ℕ → World → World
unfolding dec64
count_down i w = put_scope i (record (w.scope_at i) { open_txs = dec64 (w.scope_at i).open_txs }) w

abbrev pub open_in : Detector → Env → World → Option ℕ → Session × World
open_in d env w none = (record { in_tx = true; tx_scope = none }, report_unscoped_tx d env w)
open_in d env w (some i) = (record { in_tx = true; tx_scope = some i }, count_up i w)

unfoldable pub open_tx : Detector → Env → Context → Session → World → Session × World
unfolding scope_from count_up report_unscoped_tx
open_tx d env ctx s w = open_in d env w (scope_from ctx)

abbrev pub close_in : World → Option ℕ → Session × World
close_in w none = (record { in_tx = false; tx_scope = none }, w)
close_in w (some i) = (record { in_tx = false; tx_scope = none }, count_down i w)

unfoldable pub close_tx : Session → World → Session × World
unfolding count_down
close_tx s w = if s.in_tx then close_in w s.tx_scope else (s, w)

abbrev pub is_scope : ℕ → Option ℕ → Bool
is_scope i none = false
is_scope i (some j) = j == i

-- The session's own transaction counts in this scope: `self` is 1.
unfoldable pub holds : ℕ → Session → Bool
holds i s = s.in_tx && is_scope i s.tx_scope

abbrev pub write_op : Bytes → Op
write_op query = record { kind = codes "db"; name = cross_conn_op_name query }

abbrev pub cross_conn_in : Detector → Env → Bytes → Session → World → Option (ℕ × Option ℕ) → World
cross_conn_in d env query s w none = w
cross_conn_in d env query s w (some (i, mark)) =
    let total = (w.scope_at i).open_txs in
    let foreign = if holds i s then dec64 total else total in
    if leb_ℤ foreign (pos 0)
    then if eq_ℤ total (pos 0) then outside_region env i (write_op query) mark w else w
    else decide_and_report d env i mark (write_op query) foreign no_config w

unfoldable pub report_if_cross_conn : Detector → Env → Context → Bytes → Session → World → World
unfolding scope_and_mark_from holds dec64 decide_and_report report_stale_allow cross_conn_op_name
report_if_cross_conn d env ctx query s w = cross_conn_in d env query s w (scope_and_mark_from ctx)

unfoldable pub observe_kind :
    Detector → Env → Context → Bytes → StatementKind → Session → World → Session × World
unfolding open_tx close_tx report_if_cross_conn
observe_kind d env ctx query begin s w = if not s.in_tx then open_tx d env ctx s w else (s, w)
observe_kind d env ctx query commit s w = close_tx s w
observe_kind d env ctx query rollback s w = close_tx s w
observe_kind d env ctx query write s w = (s, report_if_cross_conn d env ctx query s w)
observe_kind d env ctx query other s w = (s, w)

-- The checkers run only if there is one.
abbrev pub run_some {ℓ} : {A : Type ℓ} → List A → (World → World) → World → World
run_some [] f w = w
run_some (a ∷ rest) f w = f w

unfoldable pub observe : Detector → Env → Context → Bytes → Session → World → Session × World
unfolding observe_kind run_statement_checkers
observe d env ctx query s w =
    let (s', w') = observe_kind d env ctx query (d.classify query) s w in
    (s', run_some d.stmt_checkers (run_statement_checkers d env ctx query) w')

unfoldable pub begin_tx : Detector → Env → Context → Session → World → Session × World
unfolding open_tx close_tx
begin_tx d env ctx s w = let (s', w') = close_tx s w in open_tx d env ctx s' w'

unfoldable pub end_tx : Session → World → Session × World
unfolding close_tx
end_tx s w = close_tx s w
