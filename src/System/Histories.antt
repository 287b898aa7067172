-- ===== src/System/Histories.antt =====
-- The counter theorem: histories of calls from a new detector.
use go_txnpure.Base.{
  length, get_elem?, length-append, length-set, All-append, pos, max_int64, nat_eq, bytes_Eq, ℕ,
  ◌+◌, ◌≤◌, ◌≡◌, refl, sym, ap, ◌∙◌, Option, none, some, List, [], ◌∷◌, arith,
}
use go_txnpure.Detector.{
  DetectorOption, new, with_reporter, with_allowlist, with_classifier, with_statement_checker,
  with_unscoped_tx_detection, with_unscoped_check_detection, with_nested_scope_detection,
  with_leaked_tx_detection, with_stack_depth, with_scope_attrs_func, apply_option, apply_options,
  default_detector, empty_world,
}
use go_txnpure.Driver.Stmt.{wrap_stmt}
use go_txnpure.Session.{Session, new_session}
use go_txnpure.State.{Env, Context, World, Detector, scope_from}
use go_txnpure.System.Balance.{
  Fits, start_scope-Counted, allow-Counted, on_context-Counted, on_session-Counted,
}
use go_txnpure.System.Counters.{counters}
use go_txnpure.System.Invariant.{
  count_open, count_open-append, count_open-le, Counted, Counted-Keeps, Counted-context,
}
use go_txnpure.System.Keeps.{Keeps-check, Keeps-finish_scope}
use go_txnpure.System.Moves.{Moves-observe, Moves-observe_stmt, Moves-begin_tx, Moves-end_tx}
use go_txnpure.System.{
  System, Call, derives, starts, allows, finishes, checks, connects, observes, executes, begins,
  ends, start, step, run, on_context, on_session, finish_in,
}

step-Counted :
    (d : Detector) (sys : System) (env : Env) (c : Call)
    → Fits sys
    → Counted sys
    → Counted (step d sys (env, c))
unfolding step scope_from
step-Counted d sys env (derives k v) fits c =
    on_context-Counted sys k _ (λ ctx known. Counted-context sys _ known c) c
step-Counted d sys env (starts k name opts) fits c =
    on_context-Counted sys k _ (λ ctx known. start_scope-Counted d env ctx name opts sys c) c
step-Counted d sys env (allows k reason counts) fits c =
    on_context-Counted sys k _ (λ ctx known. allow-Counted ctx reason counts sys known c) c
step-Counted d sys env (finishes k) fits c =
    on_context-Counted sys k _ (λ ctx known. at (scope_from ctx)) c
  where
    at : (o : Option ℕ) → Counted (finish_in d env sys o)
    at none = c
    at (some i) = Counted-Keeps sys _ (Keeps-finish_scope d env i sys.world) c
step-Counted d sys env (checks k op opts) fits c =
    on_context-Counted sys k _
      (λ ctx known. Counted-Keeps sys _ (Keeps-check d env ctx op opts sys.world) c) c
step-Counted d sys env connects fits c = record {
  exact = λ i. c.exact i ∙ ap pos (sym (count_open-append i sys.sessions));
  sessions_below = All-append _ sys.sessions (new_session ∷ []) c.sessions_below (tt, tt);
  contexts_below = c.contexts_below;
}
step-Counted d sys env (observes j k query) fits c =
    on_context-Counted sys k _
      (λ ctx known.
        on_session-Counted sys j _ fits (λ s. Moves-observe d env ctx query s sys.world known) c)
      c
step-Counted d sys env (executes j k query) fits c =
    on_context-Counted sys k _
      (λ ctx known.
        on_session-Counted sys j _ fits
          (λ s. Moves-observe_stmt d env ctx (wrap_stmt d query) s sys.world known) c)
      c
step-Counted d sys env (begins j k) fits c =
    on_context-Counted sys k _
      (λ ctx known.
        on_session-Counted sys j _ fits (λ s. Moves-begin_tx d env ctx s sys.world known) c)
      c
step-Counted d sys env (ends j) fits c =
    on_session-Counted sys j _ fits (λ s. Moves-end_tx s sys.world) c

record AtMost (n : ℕ) (sys : System) : Type 0 where
  sessions_le : length sys.sessions ≤ n

on_context-AtMost :
    {n : ℕ} (sys : System) (k : ℕ) (f : Context → System)
    → AtMost n sys
    → ((ctx : Context) → AtMost n (f ctx))
    → AtMost n (on_context sys (get_elem? sys.contexts k) f)
on_context-AtMost {n} sys k f h g = at (get_elem? sys.contexts k)
  where
    at : (o : Option Context) → AtMost n (on_context sys o f)
    at none = h
    at (some ctx) = g ctx

on_session-AtMost :
    {n : ℕ} (sys : System) (j : ℕ) (f : Session → World → Session × World)
    → AtMost n sys
    → AtMost n (on_session sys j (get_elem? sys.sessions j) f)
on_session-AtMost {n} sys j f h = at (get_elem? sys.sessions j)
  where
    at : (o : Option Session) → AtMost n (on_session sys j o f)
    at none = h
    at (some s) = record {
      sessions_le = rw (length-set sys.sessions j (f s sys.world).0) h.sessions_le;
    }

-- A call makes one connection at most.
step-AtMost :
    (d : Detector) (sys : System) (env : Env) (c : Call)
    → AtMost (length sys.sessions + 1) (step d sys (env, c))
unfolding step
step-AtMost d sys env c = at c
  where
    here : AtMost (length sys.sessions + 1) sys
    here = record { sessions_le = omega arith }

    same :
        (w : World) (cs : List Context)
        → AtMost (length sys.sessions + 1) (record sys { world = w; contexts = cs })
    same w cs = record { sessions_le = omega arith }

    finished : (o : Option ℕ) → AtMost (length sys.sessions + 1) (finish_in d env sys o)
    finished none = here
    finished (some i) = same _ sys.contexts

    at : (c : Call) → AtMost (length sys.sessions + 1) (step d sys (env, c))
    at (derives k v) = on_context-AtMost sys k _ here (λ ctx. same sys.world _)
    at (starts k name opts) = on_context-AtMost sys k _ here (λ ctx. same _ _)
    at (allows k reason counts) = on_context-AtMost sys k _ here (λ ctx. same _ _)
    at (finishes k) = on_context-AtMost sys k _ here (λ ctx. finished (scope_from ctx))
    at (checks k op opts) = on_context-AtMost sys k _ here (λ ctx. same _ sys.contexts)
    at connects = record {
      sessions_le = omega (arith, length-append sys.sessions (new_session ∷ []));
    }
    at (observes j k query) = on_context-AtMost sys k _ here (λ ctx. on_session-AtMost sys j _ here)
    at (executes j k query) = on_context-AtMost sys k _ here (λ ctx. on_session-AtMost sys j _ here)
    at (begins j k) = on_context-AtMost sys k _ here (λ ctx. on_session-AtMost sys j _ here)
    at (ends j) = on_session-AtMost sys j _ here

run-Counted :
    (d : Detector) (sys : System) (calls : List (Env × Call))
    → length sys.sessions + length calls ≤ max_int64
    → Counted sys
    → Counted (run d sys calls)
unfolding run
run-Counted d sys [] h c = c
run-Counted d sys ((env, call) ∷ calls) h c =
    run-Counted d (step d sys (env, call)) calls
      (omega (arith, (step-AtMost d sys env call).sessions_le))
      (step-Counted d sys env call (omega arith) c)

abbrev pub SameScopes : World → World → Type 0
SameScopes w w' = (w'.scope_at ≡ w.scope_at) × (w'.next_scope ≡ w.next_scope)

pub apply_options-SameScopes :
    (opts : List DetectorOption) (d : Detector) (w : World)
    → SameScopes w (apply_options opts (d, w)).1
unfolding apply_options apply_option
apply_options-SameScopes [] d w = (refl, refl)
apply_options-SameScopes (with_reporter rs ∷ opts) d w = apply_options-SameScopes opts d _
apply_options-SameScopes (with_allowlist a ∷ opts) d w = apply_options-SameScopes opts d _
apply_options-SameScopes (with_classifier c ∷ opts) d w = apply_options-SameScopes opts _ w
apply_options-SameScopes (with_statement_checker cs ∷ opts) d w = apply_options-SameScopes opts _ w
apply_options-SameScopes (with_unscoped_tx_detection ∷ opts) d w = apply_options-SameScopes opts _ w
apply_options-SameScopes (with_unscoped_check_detection ∷ opts) d w =
    apply_options-SameScopes opts _ w
apply_options-SameScopes (with_nested_scope_detection ∷ opts) d w =
    apply_options-SameScopes opts _ w
apply_options-SameScopes (with_leaked_tx_detection ∷ opts) d w = apply_options-SameScopes opts _ w
apply_options-SameScopes (with_stack_depth n ∷ opts) d w = apply_options-SameScopes opts _ w
apply_options-SameScopes (with_scope_attrs_func f ∷ opts) d w = apply_options-SameScopes opts _ w

start-Counted : (opts : List DetectorOption) → Counted (start (new opts).1)
unfolding new scope_from
start-Counted opts =
    let same = apply_options-SameScopes opts default_detector empty_world in
    record {
      exact = λ i. ap (λ f. (f i).open_txs) same.0;
      sessions_below = tt;
      contexts_below = (tt, tt);
    }

-- The system after a history of calls on a new detector.
abbrev pub reached : List DetectorOption → List (Env × Call) → System
reached opts calls = run (new opts).0 (start (new opts).1) calls

pub reached-Counted :
    (opts : List DetectorOption) (calls : List (Env × Call))
    → length calls ≤ max_int64
    → Counted (reached opts calls)
reached-Counted opts calls h =
    run-Counted (new opts).0 (start (new opts).1) calls (omega arith) (start-Counted opts)

-- After any history of fewer than 2^63 calls on a new detector with any options, the
-- open-transaction counter of every scope is the number of connections that hold a transaction of
-- that scope; so it is not negative, and it is no more than the number of connections.
pub run_counters :
    (opts : List DetectorOption) (calls : List (Env × Call)) (i : ℕ)
    → length calls ≤ max_int64
    → (counters (reached opts calls).world i ≡ pos (count_open i (reached opts calls).sessions))
      × (count_open i (reached opts calls).sessions ≤ length (reached opts calls).sessions)
run_counters opts calls i h = ((reached-Counted opts calls h).exact i, count_open-le i _)
