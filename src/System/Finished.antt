-- ===== src/System/Finished.antt =====
-- detector.go: a scope that has finished, under every later call of the library.
use go_txnpure.Base.{
  if◌then◌else◌, get_elem?, nat_eq, Bytes, bytes_Eq, ℕ, ◌≤◌, ◌<◌, ◌≡◌, Bool, true, false, not,
  Option, none, some, List, [], ◌∷◌, arith,
}
use go_txnpure.Classify.{StatementKind, other, begin, commit, rollback, write}
use go_txnpure.Detector.{finish_scope, start_scope}
use go_txnpure.Detector.Finish.{finish_scope-finished, finished-finish_scope}
use go_txnpure.Driver.Stmt.{Stmt, wrap_stmt, observe_stmt}
use go_txnpure.Report.{ScopeAttr}
use go_txnpure.Session.{
  Session, open_in, close_in, count_up, count_down, open_tx, close_tx, observe_kind, observe,
  begin_tx, end_tx, run_some,
}
use go_txnpure.State.{Env, Context, World, Detector, scope_from}
use go_txnpure.System.{
  System, Call, derives, starts, allows, finishes, checks, connects, observes, executes, begins,
  ends, step, run, on_context, on_session, finish_in,
}
use go_txnpure.System.Balance.{Keeps-report_nesting}
use go_txnpure.System.Counters.{Keeps, Keeps-refl, ended-put_scope}
use go_txnpure.System.Keeps.{
  Keeps-check, Keeps-finish_scope, Keeps-allow_in_transaction_here, Keeps-run_statement_checkers,
  Keeps-report_statement_ops, Keeps-report_unscoped_tx, Keeps-report_if_cross_conn,
}

-- A scope that exists and has finished has finished for good.
record Stays (w w' : World) : Type 0 where
  next_le : w.next_scope ≤ w'.next_scope
  ended :
      (j : ℕ) → j < w.next_scope → (w.scope_at j).finished ≡ true → (w'.scope_at j).finished ≡ true

Stays-trans : {u v w : World} → Stays u v → Stays v w → Stays u w
Stays-trans p q = record {
  next_le = omega (arith, p.next_le, q.next_le);
  ended = λ j h e. q.ended j (omega (arith, h, p.next_le)) (p.ended j h e);
}

Stays-Keeps : {w w' : World} → Keeps w w' → Stays w w'
Stays-Keeps k = record { next_le = omega (arith, k.fresh); ended = λ j h e. k.ended j e }

Stays-refl : (w : World) → Stays w w
Stays-refl w = Stays-Keeps (Keeps-refl w)

Stays-open_tx :
    (d : Detector) (env : Env) (ctx : Context) (s : Session) (w : World)
    → Stays w (open_tx d env ctx s w).1
unfolding open_tx count_up
Stays-open_tx d env ctx s w = at (scope_from ctx)
  where
    at : (o : Option ℕ) → Stays w (open_in d env w o).1
    at none = Stays-Keeps (Keeps-report_unscoped_tx d env w)
    at (some i) = record { next_le = omega arith; ended = λ j h. ended-put_scope i _ w (λ e. e) j }

Stays-close_tx : (s : Session) (w : World) → Stays w (close_tx s w).1
unfolding close_tx count_down
Stays-close_tx s w = at s.in_tx s.tx_scope
  where
    at :
        (t : Bool) (o : Option ℕ)
        → Stays w (if t then close_in w o else (record { in_tx = t; tx_scope = o }, w)).1
    at false o = Stays-refl w
    at true none = Stays-refl w
    at true (some i) = record {
      next_le = omega arith;
      ended = λ j h. ended-put_scope i _ w (λ e. e) j;
    }

Stays-observe_kind :
    (d : Detector) (env : Env) (ctx : Context) (query : Bytes) (kind : StatementKind) (s : Session)
    (w : World)
    → Stays w (observe_kind d env ctx query kind s w).1
unfolding observe_kind
Stays-observe_kind d env ctx query begin s w = at s.in_tx
  where
    at : (b : Bool) → Stays w (if not b then open_tx d env ctx s w else (s, w)).1
    at true = Stays-refl w
    at false = Stays-open_tx d env ctx s w
Stays-observe_kind d env ctx query commit s w = Stays-close_tx s w
Stays-observe_kind d env ctx query rollback s w = Stays-close_tx s w
Stays-observe_kind d env ctx query write s w =
    Stays-Keeps (Keeps-report_if_cross_conn d env ctx query s w)
Stays-observe_kind d env ctx query other s w = Stays-refl w

Stays-run_some :
    {A : Type 0} (list : List A) (f : World → World) (w : World)
    → ((u : World) → Keeps u (f u))
    → Stays w (run_some list f w)
Stays-run_some [] f w k = Stays-refl w
Stays-run_some (a ∷ rest) f w k = Stays-Keeps (k w)

Stays-observe :
    (d : Detector) (env : Env) (ctx : Context) (query : Bytes) (s : Session) (w : World)
    → Stays w (observe d env ctx query s w).1
unfolding observe
Stays-observe d env ctx query s w =
    Stays-trans (Stays-observe_kind d env ctx query (d.classify query) s w)
      (Stays-run_some d.stmt_checkers _ _ (Keeps-run_statement_checkers d env ctx query))

Stays-observe_stmt :
    (d : Detector) (env : Env) (ctx : Context) (stmt : Stmt) (s : Session) (w : World)
    → Stays w (observe_stmt d env ctx stmt s w).1
unfolding observe_stmt
Stays-observe_stmt d env ctx stmt s w =
    Stays-trans (Stays-observe_kind d env ctx stmt.query stmt.kind s w)
      (Stays-run_some stmt.stmt_ops _ _ (Keeps-report_statement_ops d env ctx stmt.stmt_ops))

Stays-begin_tx :
    (d : Detector) (env : Env) (ctx : Context) (s : Session) (w : World)
    → Stays w (begin_tx d env ctx s w).1
unfolding begin_tx
Stays-begin_tx d env ctx s w =
    Stays-trans (Stays-close_tx s w) (Stays-open_tx d env ctx (close_tx s w).0 (close_tx s w).1)

-- A new scope takes an address that no other scope has.
Stays-start_scope :
    (d : Detector) (env : Env) (ctx : Context) (name : Bytes) (opts : List (List ScopeAttr))
    (w : World)
    → Stays w (start_scope d env ctx name opts w).1
unfolding start_scope
Stays-start_scope d env ctx name opts w =
    Stays-trans (Stays-Keeps (Keeps-report_nesting d env name w (scope_from ctx)))
      (record { next_le = omega arith; ended = λ j h e. ground arith })

record After (sys sys' : System) : Type 0 where
  stays : Stays sys.world sys'.world

on_context-After :
    (sys : System) (k : ℕ) (f : Context → System)
    → ((ctx : Context) → After sys (f ctx))
    → After sys (on_context sys (get_elem? sys.contexts k) f)
on_context-After sys k f h = at (get_elem? sys.contexts k)
  where
    at : (o : Option Context) → After sys (on_context sys o f)
    at none = record { stays = Stays-refl sys.world }
    at (some ctx) = h ctx

on_session-After :
    (sys : System) (j : ℕ) (f : Session → World → Session × World)
    → ((s : Session) → Stays sys.world (f s sys.world).1)
    → After sys (on_session sys j (get_elem? sys.sessions j) f)
on_session-After sys j f h = at (get_elem? sys.sessions j)
  where
    at : (o : Option Session) → After sys (on_session sys j o f)
    at none = record { stays = Stays-refl sys.world }
    at (some s) = record { stays = h s }

step-After : (d : Detector) (sys : System) (env : Env) (c : Call) → After sys (step d sys (env, c))
unfolding step end_tx
step-After d sys env (derives k v) =
    on_context-After sys k _ (λ ctx. record { stays = Stays-refl sys.world })
step-After d sys env (starts k name opts) =
    on_context-After sys k _
      (λ ctx. record { stays = Stays-start_scope d env ctx name opts sys.world })
step-After d sys env (allows k reason counts) = on_context-After sys k _ (λ ctx. record {
  stays = Stays-Keeps (Keeps-allow_in_transaction_here ctx reason counts sys.world);
})
step-After d sys env (finishes k) = on_context-After sys k _ (λ ctx. at (scope_from ctx))
  where
    at : (o : Option ℕ) → After sys (finish_in d env sys o)
    at none = record { stays = Stays-refl sys.world }
    at (some i) = record { stays = Stays-Keeps (Keeps-finish_scope d env i sys.world) }
step-After d sys env (checks k op opts) =
    on_context-After sys k _
      (λ ctx. record { stays = Stays-Keeps (Keeps-check d env ctx op opts sys.world) })
step-After d sys env connects = record { stays = Stays-refl sys.world }
step-After d sys env (observes j k query) =
    on_context-After sys k _
      (λ ctx. on_session-After sys j _ (λ s. Stays-observe d env ctx query s sys.world))
step-After d sys env (executes j k query) = on_context-After sys k _ (λ ctx.
    on_session-After sys j _ (λ s. Stays-observe_stmt d env ctx (wrap_stmt d query) s sys.world))
step-After d sys env (begins j k) =
    on_context-After sys k _
      (λ ctx. on_session-After sys j _ (λ s. Stays-begin_tx d env ctx s sys.world))
step-After d sys env (ends j) = on_session-After sys j _ (λ s. Stays-close_tx s sys.world)

run-Stays :
    (d : Detector) (sys : System) (calls : List (Env × Call))
    → Stays sys.world (run d sys calls).world
unfolding run
run-Stays d sys [] = Stays-refl sys.world
run-Stays d sys ((env, c) ∷ calls) =
    Stays-trans (step-After d sys env c).stays (run-Stays d (step d sys (env, c)) calls)

-- The finish function of a scope that was started reports once: whatever calls of the library follow
-- the first call of it, on that scope or on others, a second call changes nothing, at any time and on
-- any detector.
pub finish_scope-once :
    (d d' : Detector) (env later : Env) (i : ℕ) (sys : System) (calls : List (Env × Call))
    → i < sys.world.next_scope
    → (let after = run d (record sys { world = finish_scope d env i sys.world }) calls in
        finish_scope d' later i after.world ≡ after.world)
finish_scope-once d d' env later i sys calls known = finished-finish_scope d' later i _ (
    (run-Stays d (record sys { world = finish_scope d env i sys.world }) calls).ended i
      (omega (arith, known, (Keeps-finish_scope d env i sys.world).fresh))
      (finish_scope-finished d env i sys.world))
