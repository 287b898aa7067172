-- ===== src/System/Refines.antt =====
-- The library refines the ledger.
use go_txnpure.Base.{
  if◌then◌else◌, length, get_elem?, ℤ, pos, max_int64, nat_eq, Bytes, bytes_Eq, count, ℕ, ◌+◌, ◌≤◌,
  ◌≡◌, refl, sym, ap, ◌∙◌, Bool, true, false, ◌&&◌, Option, none, some, List, [], ◌∷◌, ◌++◌, map,
}
use go_txnpure.Allow.{allow_in_transaction_here, allow_in_scope}
use go_txnpure.Check.{check}
use go_txnpure.Detector.{
  DetectorOption, new, default_detector, empty_world, start_scope, finish_scope,
}
use go_txnpure.Driver.Parity.{observe_stmt-wrap_stmt}
use go_txnpure.Session.{Session, new_session, holds, is_scope}
use go_txnpure.Report.{ScopeAttr}
use go_txnpure.State.{with_value, Env, Context, World, Detector, scope_from}
use go_txnpure.System.{
  System, Call, derives, starts, allows, finishes, checks, connects, observes, executes, begins,
  ends, start, step, run, on_context, finish_in, grow,
}
use go_txnpure.System.Balance.{Keeps-report_nesting}
use go_txnpure.System.Counters.{counters}
use go_txnpure.System.Histories.{reached, run_counters, apply_options-SameScopes}
use go_txnpure.System.Holdings.{
  map-append, on_context-ledger, on_session-ledger, observe-next_scope, holding_of-observe,
  begin_tx-next_scope, holding_of-begin_tx, end_tx-next_scope, holding_of-end_tx,
}
use go_txnpure.System.Invariant.{count_open}
use go_txnpure.System.Keeps.{Keeps-check, Keeps-finish_scope, Keeps-allow_in_transaction_here}
use go_txnpure.System.Moves.{to_nat}
use go_txnpure.System.Ledger.{
  idle, joined, add_scope, ledger_step, ledger_run, new_ledger, is_in_scope, holding_of, ledger_of,
}

-- A new context behind the others.
ledger_of-grow :
    (sys : System) (r : Context × World) (o : Option ℕ) (n : ℕ)
    → scope_from r.0 ≡ o
    → r.1.next_scope ≡ n
    → ledger_of (grow sys r) ≡ record (add_scope (ledger_of sys) o) { next_scope = n }
ledger_of-grow sys (ctx, w) o n e f =
    ap
      (λ l. record {
        scopes = l;
        next_scope = w.next_scope;
        holdings = map holding_of sys.sessions;
      })
      (map-append scope_from sys.contexts (ctx ∷ [])
        ∙ ap (λ p. map scope_from sys.contexts ++ p ∷ []) e)
    ∙ ap (λ m. record (add_scope (ledger_of sys) o) { next_scope = m }) f

scope_from-allow_in_transaction_here :
    (ctx : Context) (reason : Bytes) (counts : List ℤ) (w : World)
    → scope_from (allow_in_transaction_here ctx reason counts w).0 ≡ scope_from ctx
unfolding allow_in_transaction_here scope_from
scope_from-allow_in_transaction_here ctx reason counts w = at (scope_from ctx) counts refl
  where
    at :
        (o : Option ℕ) (cs : List ℤ)
        → scope_from ctx ≡ o
        → scope_from (allow_in_scope ctx reason cs w o).0 ≡ scope_from ctx
    at none cs e = refl
    at (some i) [] e = sym e
    at (some i) (c ∷ cs) e = sym e

start_scope-next_scope :
    (d : Detector) (env : Env) (ctx : Context) (name : Bytes) (opts : List (List ScopeAttr))
    (w : World)
    → (start_scope d env ctx name opts w).1.next_scope ≡ w.next_scope + 1
unfolding start_scope
start_scope-next_scope d env ctx name opts w =
    ap (λ n. n + 1) (Keeps-report_nesting d env name w (scope_from ctx)).fresh

scope_from-start_scope :
    (d : Detector) (env : Env) (ctx : Context) (name : Bytes) (opts : List (List ScopeAttr))
    (w : World)
    → scope_from (start_scope d env ctx name opts w).0 ≡ some w.next_scope
unfolding start_scope scope_from
scope_from-start_scope d env ctx name opts w =
    ap some (Keeps-report_nesting d env name w (scope_from ctx)).fresh

on_context_same :
    (sys : System) (o : Option Context) (f : Context → System)
    → ((ctx : Context) → ledger_of (f ctx) ≡ ledger_of sys)
    → ledger_of (on_context sys o f) ≡ ledger_of sys
on_context_same sys none f h = refl
on_context_same sys (some ctx) f h = h ctx

ledger_of_world :
    (sys : System) (w : World)
    → w.next_scope ≡ sys.world.next_scope
    → ledger_of (record sys { world = w }) ≡ ledger_of sys
ledger_of_world sys w e = ap (λ n. record (ledger_of sys) { next_scope = n }) e

ledger_of-step :
    (d : Detector) (sys : System) (env : Env) (c : Call)
    → ledger_of (step d sys (env, c)) ≡ ledger_step d.classify (ledger_of sys) c
unfolding step
ledger_of-step d sys env (derives k v) = on_context-ledger sys k _ _ (λ ctx.
    ledger_of-grow sys (with_value v ctx, sys.world) (scope_from ctx) sys.world.next_scope
      (unfold scope_from in refl) refl)
ledger_of-step d sys env (starts k name opts) = on_context-ledger sys k _ _ (λ ctx.
    ledger_of-grow sys (start_scope d env ctx name opts sys.world) (some sys.world.next_scope)
      (sys.world.next_scope + 1) (scope_from-start_scope d env ctx name opts sys.world)
      (start_scope-next_scope d env ctx name opts sys.world))
ledger_of-step d sys env (allows k reason counts) = on_context-ledger sys k _ _ (λ ctx.
    ledger_of-grow sys (allow_in_transaction_here ctx reason counts sys.world) (scope_from ctx)
      sys.world.next_scope (scope_from-allow_in_transaction_here ctx reason counts sys.world)
      (Keeps-allow_in_transaction_here ctx reason counts sys.world).fresh)
ledger_of-step d sys env (finishes k) =
    on_context_same sys (get_elem? sys.contexts k) _ (λ ctx. at (scope_from ctx))
  where
    at : (o : Option ℕ) → ledger_of (finish_in d env sys o) ≡ ledger_of sys
    at none = refl
    at (some i) =
        ledger_of_world sys (finish_scope d env i sys.world)
          (Keeps-finish_scope d env i sys.world).fresh
ledger_of-step d sys env (checks k op opts) =
    on_context_same sys (get_elem? sys.contexts k) _ (λ ctx.
      ledger_of_world sys (check d env ctx op opts sys.world)
        (Keeps-check d env ctx op opts sys.world).fresh)
ledger_of-step d sys env connects =
    ap (λ l. record (ledger_of sys) { holdings = l })
      (map-append holding_of sys.sessions (new_session ∷ []))
ledger_of-step d sys env (observes j k query) = on_context-ledger sys k _ _ (λ ctx.
    on_session-ledger sys j _ _ (λ s. holding_of-observe d env ctx query s sys.world)
      (λ s. observe-next_scope d env ctx query s sys.world))
ledger_of-step d sys env (executes j k query) = on_context-ledger sys k _ _ (λ ctx.
    on_session-ledger sys j _ _
      (λ s.
        ap (λ r. holding_of r.0) (observe_stmt-wrap_stmt d env ctx query s sys.world)
        ∙ holding_of-observe d env ctx query s sys.world)
      (λ s.
        ap (λ r. r.1.next_scope) (observe_stmt-wrap_stmt d env ctx query s sys.world)
        ∙ observe-next_scope d env ctx query s sys.world))
ledger_of-step d sys env (begins j k) = on_context-ledger sys k _ _ (λ ctx.
    on_session-ledger sys j _ _ (λ s. holding_of-begin_tx d env ctx s sys.world)
      (λ s. begin_tx-next_scope d env ctx s sys.world))
ledger_of-step d sys env (ends j) =
    on_session-ledger sys j _ _ (λ s. holding_of-end_tx s sys.world)
      (λ s. end_tx-next_scope s sys.world)

ledger_of-run :
    (d : Detector) (sys : System) (calls : List (Env × Call))
    → ledger_of (run d sys calls) ≡ ledger_run d.classify (ledger_of sys) calls
unfolding run
ledger_of-run d sys [] = refl
ledger_of-run d sys ((env, c) ∷ calls) =
    ledger_of-run d (step d sys (env, c)) calls
    ∙ ap (λ l. ledger_run d.classify l calls) (ledger_of-step d sys env c)

is_in_scope-holding_of : (i : ℕ) (s : Session) → is_in_scope i (holding_of s) ≡ holds i s
unfolding holds
is_in_scope-holding_of i s = at s.in_tx s.tx_scope
  where
    at :
        (t : Bool) (o : Option ℕ)
        → is_in_scope i (if t then joined o else idle) ≡ (t && is_scope i o)
    at true none = refl
    at true (some j) = refl
    at false o = refl

one_if : (b : Bool) → (if b then 1 else 0) ≡ to_nat b
one_if true = refl
one_if false = refl

count-holdings :
    (i : ℕ) (ss : List Session) → count (is_in_scope i) (map holding_of ss) ≡ count_open i ss
count-holdings i [] = refl
count-holdings i (s ∷ ss) =
    ap (λ n. n + count (is_in_scope i) (map holding_of ss))
      (ap (λ b. if b then 1 else 0) (is_in_scope-holding_of i s) ∙ one_if (holds i s))
    ∙ ap (λ n. to_nat (holds i s) + n) (count-holdings i ss)

ledger_of-start : (opts : List DetectorOption) → ledger_of (start (new opts).1) ≡ new_ledger
unfolding new scope_from
ledger_of-start opts =
    ap (λ n. record new_ledger { next_scope = n })
      (apply_options-SameScopes opts default_detector empty_world).1

pub ledger_of-reached :
    (opts : List DetectorOption) (calls : List (Env × Call))
    → ledger_of (reached opts calls) ≡ ledger_run (new opts).0.classify new_ledger calls
ledger_of-reached opts calls =
    ledger_of-run (new opts).0 (start (new opts).1) calls
    ∙ ap (λ l. ledger_run (new opts).0.classify l calls) (ledger_of-start opts)

-- The scopes of the contexts and what the connections hold are after any history of calls just what
-- the ledger says, which knows nothing of reports, regions, lists, checkers and counters; and after
-- fewer than 2^63 calls the counter of every scope is the number of connections that hold a
-- transaction of it in the ledger.
pub reached-ledger_run :
    (opts : List DetectorOption) (calls : List (Env × Call)) (i : ℕ)
    → length calls ≤ max_int64
    → let l = ledger_run (new opts).0.classify new_ledger calls in
      (ledger_of (reached opts calls) ≡ l)
      × (counters (reached opts calls).world i ≡ pos (count (is_in_scope i) l.holdings))
reached-ledger_run opts calls i h = (
  ledger_of-reached opts calls,
  (run_counters opts calls i h).0
      ∙ ap pos (sym (count-holdings i (reached opts calls).sessions))
      ∙ ap (λ l. pos (count (is_in_scope i) l.holdings)) (ledger_of-reached opts calls),
)
