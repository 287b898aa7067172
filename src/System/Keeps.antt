-- ===== src/System/Keeps.antt =====
-- The counters under whole operations: checkpoints, statement checkers, regions and scope ends.
use go_txnpure.Base.{
  ℤ, pos, leb_ℤ, eq_ℤ, nat_eq, Bytes, bytes_Eq, ℕ, refl, true, not, ◌&&◌, Option, none, some, List,
  [], ◌∷◌,
}
use go_txnpure.Allow.{
  shortfalls, allow_in_scope, report_all, report_call_shortfalls, allow_in_transaction_here,
}
use go_txnpure.Check.{
  report_ops_in, decide_ops, outside_ops, report_statement_ops, check_in, decide_match,
  outside_match, run_in, CheckOption, applied_check_config, check, decide_matches, outside_matches,
  run_statement_checkers, outside_region, no_config,
}
use go_txnpure.Detector.{finish_scope, report_leak}
use go_txnpure.Identity.{Op}
use go_txnpure.Report.{StaleAllow}
use go_txnpure.Session.{cross_conn_in, Session, report_if_cross_conn, report_unscoped_tx, write_op}
use go_txnpure.State.{Env, Context, World, Detector, scope_and_mark_from, scope_from}
use go_txnpure.System.Counters.{
  Keeps, Keeps-refl, Keeps-trans, Keeps-if, Keeps-put_scope, Keeps-report, Keeps-report_stale_allow,
  Keeps-decide_and_report,
}

Keeps-outside_region :
    (env : Env) (i : ℕ) (op : Op) (mark : Option ℕ) (w : World)
    → Keeps w (outside_region env i op mark w)
Keeps-outside_region env i op none w = Keeps-refl w
Keeps-outside_region env i op (some m) w = Keeps-report_stale_allow env _ w

pub Keeps-check :
    (d : Detector) (env : Env) (ctx : Context) (op : Op) (opts : List CheckOption) (w : World)
    → Keeps w (check d env ctx op opts w)
unfolding check
Keeps-check d env ctx op opts w = at_scope (scope_and_mark_from ctx)
  where
    at_scope : (o : Option (ℕ × Option ℕ)) → Keeps w (check_in d env op opts w o)
    at_scope none = Keeps-if d.report_unscoped_check (Keeps-report env _ w) (Keeps-refl w)
    at_scope (some (i, mark)) =
        Keeps-if (leb_ℤ (w.scope_at i).open_txs (pos 0))
          (Keeps-trans
            (Keeps-if (applied_check_config opts).allowed (Keeps-report_stale_allow env _ w)
              (Keeps-refl w))
            (Keeps-outside_region env i op mark _))
          (Keeps-decide_and_report d env i mark op _ _ w)

Keeps-decide_matches :
    (d : Detector) (env : Env) (i : ℕ) (mark : Option ℕ) (open_now : ℤ)
    (checkers : List (Bytes → Option Op)) (query : Bytes) (w : World)
    → Keeps w (decide_matches d env i mark open_now checkers query w)
unfolding decide_matches
Keeps-decide_matches d env i mark open_now [] query w = Keeps-refl w
Keeps-decide_matches d env i mark open_now (chk ∷ checkers) query w =
    Keeps-trans (one (chk query)) (Keeps-decide_matches d env i mark open_now checkers query _)
  where
    one : (o : Option Op) → Keeps w (decide_match d env i mark open_now o w)
    one none = Keeps-refl w
    one (some op) = Keeps-decide_and_report d env i mark op open_now no_config w

Keeps-outside_matches :
    (env : Env) (i m : ℕ) (checkers : List (Bytes → Option Op)) (query : Bytes) (w : World)
    → Keeps w (outside_matches env i m checkers query w)
unfolding outside_matches
Keeps-outside_matches env i m [] query w = Keeps-refl w
Keeps-outside_matches env i m (chk ∷ checkers) query w =
    Keeps-trans (one (chk query)) (Keeps-outside_matches env i m checkers query _)
  where
    one : (o : Option Op) → Keeps w (outside_match env i m o w)
    one none = Keeps-refl w
    one (some op) = Keeps-outside_region env i op (some m) w

pub Keeps-run_statement_checkers :
    (d : Detector) (env : Env) (ctx : Context) (query : Bytes) (w : World)
    → Keeps w (run_statement_checkers d env ctx query w)
unfolding run_statement_checkers
Keeps-run_statement_checkers d env ctx query w = at_scope (scope_and_mark_from ctx)
  where
    at_mark :
        (i : ℕ) (mark : Option ℕ)
        → Keeps w
            (elim mark [ none ↦ w | some m ↦ outside_matches env i m d.stmt_checkers query w ])
    at_mark i none = Keeps-refl w
    at_mark i (some m) = Keeps-outside_matches env i m d.stmt_checkers query w

    at_scope : (o : Option (ℕ × Option ℕ)) → Keeps w (run_in d env query w o)
    at_scope none = Keeps-refl w
    at_scope (some (i, mark)) =
        Keeps-if (leb_ℤ (w.scope_at i).open_txs (pos 0)) (at_mark i mark)
          (Keeps-decide_matches d env i mark _ d.stmt_checkers query w)

Keeps-decide_ops :
    (d : Detector) (env : Env) (i : ℕ) (mark : Option ℕ) (open_now : ℤ) (ops : List Op) (w : World)
    → Keeps w (decide_ops d env i mark open_now ops w)
unfolding decide_ops
Keeps-decide_ops d env i mark open_now [] w = Keeps-refl w
Keeps-decide_ops d env i mark open_now (op ∷ ops) w =
    Keeps-trans (Keeps-decide_and_report d env i mark op open_now no_config w)
      (Keeps-decide_ops d env i mark open_now ops _)

Keeps-outside_ops :
    (env : Env) (i m : ℕ) (ops : List Op) (w : World) → Keeps w (outside_ops env i m ops w)
unfolding outside_ops
Keeps-outside_ops env i m [] w = Keeps-refl w
Keeps-outside_ops env i m (op ∷ ops) w =
    Keeps-trans (Keeps-outside_region env i op (some m) w) (Keeps-outside_ops env i m ops _)

pub Keeps-report_statement_ops :
    (d : Detector) (env : Env) (ctx : Context) (ops : List Op) (w : World)
    → Keeps w (report_statement_ops d env ctx ops w)
unfolding report_statement_ops
Keeps-report_statement_ops d env ctx ops w = at_scope (scope_and_mark_from ctx)
  where
    at_mark :
        (i : ℕ) (mark : Option ℕ)
        → Keeps w (elim mark [ none ↦ w | some m ↦ outside_ops env i m ops w ])
    at_mark i none = Keeps-refl w
    at_mark i (some m) = Keeps-outside_ops env i m ops w

    at_scope : (o : Option (ℕ × Option ℕ)) → Keeps w (report_ops_in d env ops w o)
    at_scope none = Keeps-refl w
    at_scope (some (i, mark)) =
        Keeps-if (leb_ℤ (w.scope_at i).open_txs (pos 0)) (at_mark i mark)
          (Keeps-decide_ops d env i mark _ ops w)

Keeps-report_all :
    (env : Env) (stale : List StaleAllow) (w : World) → Keeps w (report_all env stale w)
unfolding report_all
Keeps-report_all env [] w = Keeps-refl w
Keeps-report_all env (s ∷ stale) w =
    Keeps-trans (Keeps-report_stale_allow env s w) (Keeps-report_all env stale _)

Keeps-report_call_shortfalls :
    (env : Env) (i : ℕ) (w : World) → Keeps w (report_call_shortfalls env i w)
unfolding report_call_shortfalls
Keeps-report_call_shortfalls env i w = Keeps-report_all env (shortfalls (w.scope_at i) w.mark_at) w

Keeps-report_leak : (d : Detector) (env : Env) (i : ℕ) (w : World) → Keeps w (report_leak d env i w)
unfolding report_leak
Keeps-report_leak d env i w =
    Keeps-if (d.report_leaked && not (leb_ℤ (w.scope_at i).open_txs (pos 0))) (Keeps-report env _ w)
      (Keeps-refl w)

pub Keeps-finish_scope :
    (d : Detector) (env : Env) (i : ℕ) (w : World) → Keeps w (finish_scope d env i w)
unfolding finish_scope
Keeps-finish_scope d env i w = Keeps-if (w.scope_at i).finished (Keeps-refl w) (
    Keeps-trans (Keeps-put_scope i (record (w.scope_at i) { finished = true }) w refl (λ e. refl))
      (Keeps-trans (Keeps-report_call_shortfalls env i _) (Keeps-report_leak d env i _)))

pub Keeps-allow_in_transaction_here :
    (ctx : Context) (reason : Bytes) (counts : List ℤ) (w : World)
    → Keeps w (allow_in_transaction_here ctx reason counts w).1
unfolding allow_in_transaction_here
Keeps-allow_in_transaction_here ctx reason counts w = at_scope counts (scope_from ctx)
  where
    at_scope : (cs : List ℤ) (o : Option ℕ) → Keeps w (allow_in_scope ctx reason cs w o).1
    at_scope cs none = Keeps-refl w
    at_scope [] (some i) = record { same = refl; fresh = refl; ended = λ j h. h }
    at_scope (c ∷ cs) (some i) =
        Keeps-trans (record { same = refl; fresh = refl; ended = λ j h. h })
          (Keeps-put_scope i _ _ refl (λ e. e))

pub Keeps-report_unscoped_tx :
    (d : Detector) (env : Env) (w : World) → Keeps w (report_unscoped_tx d env w)
unfolding report_unscoped_tx
Keeps-report_unscoped_tx d env w = Keeps-if d.report_unscoped (Keeps-report env _ w) (Keeps-refl w)

pub Keeps-report_if_cross_conn :
    (d : Detector) (env : Env) (ctx : Context) (query : Bytes) (s : Session) (w : World)
    → Keeps w (report_if_cross_conn d env ctx query s w)
unfolding report_if_cross_conn
Keeps-report_if_cross_conn d env ctx query s w = at_scope (scope_and_mark_from ctx)
  where
    at_scope : (o : Option (ℕ × Option ℕ)) → Keeps w (cross_conn_in d env query s w o)
    at_scope none = Keeps-refl w
    at_scope (some (i, mark)) =
        Keeps-if _
          (Keeps-if (eq_ℤ (w.scope_at i).open_txs (pos 0))
            (Keeps-outside_region env i (write_op query) mark w) (Keeps-refl w))
          (Keeps-decide_and_report d env i mark (write_op query) _ no_config w)
