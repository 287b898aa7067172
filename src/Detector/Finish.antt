-- ===== src/Detector/Finish.antt =====
-- detector.go: the end of a scope.
use go_txnpure.Base.{
  if◌then◌else◌, ==_iff, pos, leb_ℤ, nat_eq, bytes_Eq, ℕ, ◌≡◌, refl, ap, ◌∙◌, Bool, true, false,
  not, ◌&&◌, List, [], ◌∷◌,
}
use go_txnpure.Allow.{shortfalls, report_stale_allow, report_all, report_call_shortfalls}
use go_txnpure.Detector.{report_leak, finish_scope}
use go_txnpure.Report.{Report, StaleAllow}
use go_txnpure.State.{Env, Scope, World, Detector, put_scope, report}

report_all-scope_at :
    (env : Env) (stale : List StaleAllow) (w : World)
    → (report_all env stale w).scope_at ≡ w.scope_at
unfolding report_all report_stale_allow report
report_all-scope_at env [] w = refl
report_all-scope_at env (s ∷ stale) w = report_all-scope_at env stale _

report_leak-scope_at :
    (d : Detector) (env : Env) (i : ℕ) (w : World) → (report_leak d env i w).scope_at ≡ w.scope_at
unfolding report_leak report
report_leak-scope_at d env i w =
    at (d.report_leaked && not (leb_ℤ (w.scope_at i).open_txs (pos 0))) _
  where
    at : (b : Bool) (r : Report) → (if b then report env r w else w).scope_at ≡ w.scope_at
    at true r = refl
    at false r = refl

reported-scope_at :
    (d : Detector) (env : Env) (i : ℕ) (w : World)
    → (report_leak d env i (report_call_shortfalls env i w)).scope_at ≡ w.scope_at
unfolding report_call_shortfalls
reported-scope_at d env i w =
    report_leak-scope_at d env i _ ∙ report_all-scope_at env (shortfalls (w.scope_at i) w.mark_at) w

pub finish_scope-finished :
    (d : Detector) (env : Env) (i : ℕ) (w : World)
    → ((finish_scope d env i w).scope_at i).finished ≡ true
unfolding finish_scope
finish_scope-finished d env i w = at (w.scope_at i).finished refl
  where
    closed : World
    closed = put_scope i (record (w.scope_at i) { finished = true }) w

    closed-finished : (closed.scope_at i).finished ≡ true
    closed-finished = rw ((==_iff i i).1 refl) refl

    at :
        (b : Bool)
        → (w.scope_at i).finished ≡ b
        → ((if b then w else report_leak d env i (report_call_shortfalls env i closed)).scope_at
            i).finished
          ≡ true
    at true e = e
    at false e =
        ap (λ (f : ℕ → Scope). (f i).finished) (reported-scope_at d env i closed) ∙ closed-finished

pub finished-finish_scope :
    (d : Detector) (env : Env) (i : ℕ) (w : World)
    → (w.scope_at i).finished ≡ true
    → finish_scope d env i w ≡ w
unfolding finish_scope
finished-finish_scope d env i w h = rw h refl
