-- ===== src/Driver/Parity.antt =====
-- A prepared statement against the same statement executed directly.
use go_txnpure.Base.{
  if◌then◌else◌, ℤ, pos, leb_ℤ, nat_eq, Bytes, bytes_Eq, ℕ, ◌≡◌, refl, sym, ap, ◌∙◌, Bool, true,
  false, Option, none, some, List, [], ◌∷◌,
}
use mathlib.Core.Path.{ap₂}
use go_txnpure.Check.{
  decide_match, outside_match, match_with, run_in, report_ops_in, matched_ops, decide_matches,
  decide_ops, outside_matches, outside_ops, run_statement_checkers, report_statement_ops,
}
use go_txnpure.Driver.Stmt.{wrap_stmt, observe_stmt}
use go_txnpure.Identity.{Op}
use go_txnpure.Session.{Session, observe, observe_kind, run_some}
use go_txnpure.State.{Env, Context, World, Detector, scope_and_mark_from}

decide_matches-matched_ops :
    (d : Detector) (env : Env) (i : ℕ) (mark : Option ℕ) (open_now : ℤ)
    (checkers : List (Bytes → Option Op)) (query : Bytes) (w : World)
    → decide_ops d env i mark open_now (matched_ops checkers query) w
      ≡ decide_matches d env i mark open_now checkers query w
unfolding decide_matches decide_ops matched_ops
decide_matches-matched_ops d env i mark open_now [] query w = refl
decide_matches-matched_ops d env i mark open_now (chk ∷ checkers) query w =
    one (chk query) ∙ decide_matches-matched_ops d env i mark open_now checkers query _
  where
    one :
        (o : Option Op)
        → decide_ops d env i mark open_now (match_with o (matched_ops checkers query)) w
          ≡ decide_ops d env i mark open_now
              (matched_ops checkers query)
              (decide_match d env i mark open_now o w)
    one none = refl
    one (some op) = refl

outside_matches-matched_ops :
    (env : Env) (i m : ℕ) (checkers : List (Bytes → Option Op)) (query : Bytes) (w : World)
    → outside_ops env i m (matched_ops checkers query) w ≡ outside_matches env i m checkers query w
unfolding outside_matches outside_ops matched_ops
outside_matches-matched_ops env i m [] query w = refl
outside_matches-matched_ops env i m (chk ∷ checkers) query w =
    one (chk query) ∙ outside_matches-matched_ops env i m checkers query _
  where
    one :
        (o : Option Op)
        → outside_ops env i m (match_with o (matched_ops checkers query)) w
          ≡ outside_ops env i m (matched_ops checkers query) (outside_match env i m o w)
    one none = refl
    one (some op) = refl

report_statement_ops-matched_ops :
    (d : Detector) (env : Env) (ctx : Context) (query : Bytes) (w : World)
    → report_statement_ops d env ctx (matched_ops d.stmt_checkers query) w
      ≡ run_statement_checkers d env ctx query w
unfolding report_statement_ops run_statement_checkers
report_statement_ops-matched_ops d env ctx query w = at_scope (scope_and_mark_from ctx)
  where
    ops : List Op
    ops = matched_ops d.stmt_checkers query

    at_mark :
        (i : ℕ) (mark : Option ℕ)
        → (elim mark [ none ↦ w | some m ↦ outside_ops env i m ops w ])
          ≡ (elim mark [ none ↦ w | some m ↦ outside_matches env i m d.stmt_checkers query w ])
    at_mark i none = refl
    at_mark i (some m) = outside_matches-matched_ops env i m d.stmt_checkers query w

    at_scope : (o : Option (ℕ × Option ℕ)) → report_ops_in d env ops w o ≡ run_in d env query w o
    at_scope none = refl
    at_scope (some (i, mark)) =
        ap₂ (λ a b. if leb_ℤ (w.scope_at i).open_txs (pos 0) then a else b) (at_mark i mark)
          (decide_matches-matched_ops d env i mark _ d.stmt_checkers query w)

-- With no match there is nothing to report, so the guard in front changes nothing.
report_statement_ops-nil :
    (d : Detector) (env : Env) (ctx : Context) (w : World) → report_statement_ops d env ctx [] w ≡ w
unfolding report_statement_ops decide_ops outside_ops
report_statement_ops-nil d env ctx w = at_scope (scope_and_mark_from ctx)
  where
    at_mark :
        (b : Bool) (i : ℕ) (mark : Option ℕ)
        → (if b then elim mark [ none ↦ w | some m ↦ w ] else w) ≡ w
    at_mark true i none = refl
    at_mark true i (some m) = refl
    at_mark false i mark = refl

    at_scope : (o : Option (ℕ × Option ℕ)) → report_ops_in d env [] w o ≡ w
    at_scope none = refl
    at_scope (some (i, mark)) = at_mark (leb_ℤ (w.scope_at i).open_txs (pos 0)) i mark

guarded_ops :
    (d : Detector) (env : Env) (ctx : Context) (ops : List Op) (w : World)
    → run_some ops (report_statement_ops d env ctx ops) w ≡ report_statement_ops d env ctx ops w
guarded_ops d env ctx [] w = sym (report_statement_ops-nil d env ctx w)
guarded_ops d env ctx (op ∷ ops) w = refl

guarded_checkers :
    (d : Detector) (env : Env) (ctx : Context) (query : Bytes) (w : World)
    → run_some d.stmt_checkers (run_statement_checkers d env ctx query) w
      ≡ report_statement_ops d env ctx (matched_ops d.stmt_checkers query) w
guarded_checkers d env ctx query w = at d.stmt_checkers refl
  where
    at :
        (cs : List (Bytes → Option Op))
        → d.stmt_checkers ≡ cs
        → run_some cs (run_statement_checkers d env ctx query) w
          ≡ report_statement_ops d env ctx (matched_ops d.stmt_checkers query) w
    at [] e = sym (
        ap (λ cs. report_statement_ops d env ctx (matched_ops cs query) w) e
        ∙ (unfold matched_ops in report_statement_ops-nil d env ctx w))
    at (c ∷ cs) e = sym (report_statement_ops-matched_ops d env ctx query w)

-- One execution of a prepared statement does to the session and to all that is shared exactly what
-- the direct execution of its query does, with any classifier and any checkers.
pub observe_stmt-wrap_stmt :
    (d : Detector) (env : Env) (ctx : Context) (query : Bytes) (s : Session) (w : World)
    → observe_stmt d env ctx (wrap_stmt d query) s w ≡ observe d env ctx query s w
unfolding observe_stmt wrap_stmt observe
observe_stmt-wrap_stmt d env ctx query s w =
    let (s', w') = observe_kind d env ctx query (d.classify query) s w in
    ap (λ (u : World). (s', u))
      (guarded_ops d env ctx (matched_ops d.stmt_checkers query) w'
        ∙ sym (guarded_checkers d env ctx query w'))
