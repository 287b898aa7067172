-- ===== src/System.antt =====
-- The library in use: any number of scopes, contexts and connections, and a history of calls in
-- the order in which they take effect. Each call is one step.
pub mod Counters
pub mod Keeps
pub mod Moves
pub mod Invariant
pub mod Balance
pub mod Histories
pub mod CrossConn
pub mod Ledger
pub mod Holdings
pub mod Refines
pub mod Quiet
pub mod Finished
use go_txnpure.Base.{
  get_elem?, set, ℤ, nat_eq, Bytes, bytes_Eq, ℕ, ◌+◌, Option, none, some, List, [], ◌∷◌, ◌++◌,
}
use go_txnpure.Allow.{allow_in_transaction_here}
use go_txnpure.Check.{CheckOption, check}
use go_txnpure.Detector.{start_scope, finish_scope, empty_world}
use go_txnpure.Driver.Stmt.{Stmt, wrap_stmt, observe_stmt}
use go_txnpure.Identity.{Op}
use go_txnpure.Report.{ScopeAttr}
use go_txnpure.Session.{Session, new_session, observe, begin_tx, end_tx}
use go_txnpure.State.{Env, Context, background, with_value, scope_from, World, Detector}

-- Contexts and sessions go by their position; a position that is not there is no call.
pub record System : Type 0 where
  pub world : World
  pub contexts : List Context
  pub sessions : List Session

-- The calls of a program: on a context, on a session, or on both (session first).
pub data Call : Type 0 where
  derives : ℕ → ℕ → Call
  starts : ℕ → Bytes → List (List ScopeAttr) → Call
  allows : ℕ → Bytes → List ℤ → Call
  finishes : ℕ → Call
  checks : ℕ → Op → List CheckOption → Call
  connects : Call
  observes : ℕ → ℕ → Bytes → Call
  executes : ℕ → ℕ → Bytes → Call
  begins : ℕ → ℕ → Call
  ends : ℕ → Call

abbrev pub start : World → System
start w = record { world = w; contexts = background ∷ []; sessions = [] }

abbrev pub on_context : System → Option Context → (Context → System) → System
on_context sys none f = sys
on_context sys (some ctx) f = f ctx

abbrev pub on_session : System → ℕ → Option Session → (Session → World → Session × World) → System
on_session sys j none f = sys
on_session sys j (some s) f =
    let (s', w) = f s sys.world in record sys { world = w; sessions = set sys.sessions j s' }

abbrev pub grow : System → Context × World → System
grow sys (ctx, w) = record sys { world = w; contexts = sys.contexts ++ ctx ∷ [] }

abbrev pub finish_in : Detector → Env → System → Option ℕ → System
finish_in d env sys none = sys
finish_in d env sys (some i) = record sys { world = finish_scope d env i sys.world }

unfoldable pub step : Detector → System → Env × Call → System
unfolding start_scope allow_in_transaction_here finish_scope check observe wrap_stmt observe_stmt
    begin_tx end_tx scope_from
step d sys (env, derives k v) =
    on_context sys (get_elem? sys.contexts k)
      (λ ctx. record sys { contexts = sys.contexts ++ with_value v ctx ∷ [] })
step d sys (env, starts k name opts) =
    on_context sys (get_elem? sys.contexts k)
      (λ ctx. grow sys (start_scope d env ctx name opts sys.world))
step d sys (env, allows k reason counts) =
    on_context sys (get_elem? sys.contexts k)
      (λ ctx. grow sys (allow_in_transaction_here ctx reason counts sys.world))
step d sys (env, finishes k) =
    on_context sys (get_elem? sys.contexts k) (λ ctx. finish_in d env sys (scope_from ctx))
step d sys (env, checks k op opts) =
    on_context sys (get_elem? sys.contexts k)
      (λ ctx. record sys { world = check d env ctx op opts sys.world })
step d sys (env, connects) = record sys { sessions = sys.sessions ++ new_session ∷ [] }
step d sys (env, observes j k query) =
    on_context sys (get_elem? sys.contexts k)
      (λ ctx. on_session sys j (get_elem? sys.sessions j) (observe d env ctx query))
step d sys (env, executes j k query) = on_context sys (get_elem? sys.contexts k) (λ ctx.
    on_session sys j (get_elem? sys.sessions j) (observe_stmt d env ctx (wrap_stmt d query)))
step d sys (env, begins j k) =
    on_context sys (get_elem? sys.contexts k)
      (λ ctx. on_session sys j (get_elem? sys.sessions j) (begin_tx d env ctx))
step d sys (env, ends j) = on_session sys j (get_elem? sys.sessions j) end_tx

unfoldable pub run : Detector → System → List (Env × Call) → System
unfolding step
run d sys [] = sys
run d sys (c ∷ calls) = run d (step d sys c) calls
