-- ===== src/System/Ledger.antt =====
-- What the library promises of transactions, without its reports, regions, lists and counters: which
-- scope each context is in, and what each connection holds.
use go_txnpure.Base.{
  ◌==◌, if◌then◌else◌, get_elem?, set, nat_eq, Bytes, bytes_Eq, ℕ, ◌+◌, Bool, false, Option, none,
  some, List, [], ◌∷◌, ◌++◌, map,
}
use go_txnpure.Classify.{StatementKind, other, begin, commit, rollback, write}
use go_txnpure.Session.{Session}
use go_txnpure.State.{Env, scope_from}
use go_txnpure.System.{
  System, Call, derives, starts, allows, finishes, checks, connects, observes, executes, begins,
  ends,
}

-- A connection is idle, or in a transaction of no scope or of a scope.
pub data Holding : Type 0 where
  idle unscoped : Holding
  held_in : ℕ → Holding

abbrev pub joined : Option ℕ → Holding
joined none = unscoped
joined (some i) = held_in i

pub record Ledger : Type 0 where
  pub scopes : List (Option ℕ)
  pub next_scope : ℕ
  pub holdings : List Holding

abbrev pub on_scope : Ledger → Option (Option ℕ) → (Option ℕ → Ledger) → Ledger
on_scope l none f = l
on_scope l (some o) f = f o

abbrev pub on_holding : Ledger → ℕ → Option Holding → (Holding → Holding) → Ledger
on_holding l j none u = l
on_holding l j (some h) u = record l { holdings = set l.holdings j (u h) }

-- A statement of each kind, in a context of the scope.
abbrev pub after_kind : StatementKind → Option ℕ → Holding → Holding
after_kind begin o idle = joined o
after_kind begin o unscoped = unscoped
after_kind begin o (held_in i) = held_in i
after_kind commit o h = idle
after_kind rollback o h = idle
after_kind write o h = h
after_kind other o h = h

abbrev pub add_scope : Ledger → Option ℕ → Ledger
add_scope l o = record l { scopes = l.scopes ++ o ∷ [] }

-- One call, with the classifier of the detector.
abbrev pub ledger_step : (Bytes → StatementKind) → Ledger → Call → Ledger
ledger_step kind_of l (derives k v) = on_scope l (get_elem? l.scopes k) (add_scope l)
ledger_step kind_of l (starts k name opts) =
    on_scope l (get_elem? l.scopes k)
      (λ o. record (add_scope l (some l.next_scope)) { next_scope = l.next_scope + 1 })
ledger_step kind_of l (allows k reason counts) = on_scope l (get_elem? l.scopes k) (add_scope l)
ledger_step kind_of l (finishes k) = l
ledger_step kind_of l (checks k op opts) = l
ledger_step kind_of l connects = record l { holdings = l.holdings ++ idle ∷ [] }
ledger_step kind_of l (observes j k query) =
    on_scope l (get_elem? l.scopes k)
      (λ o. on_holding l j (get_elem? l.holdings j) (after_kind (kind_of query) o))
ledger_step kind_of l (executes j k query) =
    on_scope l (get_elem? l.scopes k)
      (λ o. on_holding l j (get_elem? l.holdings j) (after_kind (kind_of query) o))
ledger_step kind_of l (begins j k) =
    on_scope l (get_elem? l.scopes k) (λ o. on_holding l j (get_elem? l.holdings j) (λ h. joined o))
ledger_step kind_of l (ends j) = on_holding l j (get_elem? l.holdings j) (λ h. idle)

abbrev pub ledger_run : (Bytes → StatementKind) → Ledger → List (Env × Call) → Ledger
ledger_run kind_of l [] = l
ledger_run kind_of l ((env, c) ∷ calls) = ledger_run kind_of (ledger_step kind_of l c) calls

-- One context without a scope, and no connection.
abbrev pub new_ledger : Ledger
new_ledger = record { scopes = none ∷ []; next_scope = 0; holdings = [] }

abbrev pub is_in_scope : ℕ → Holding → Bool
is_in_scope i idle = false
is_in_scope i unscoped = false
is_in_scope i (held_in j) = j == i

-- What a system means.
abbrev pub holding_of : Session → Holding
holding_of s = if s.in_tx then joined s.tx_scope else idle

abbrev pub ledger_of : System → Ledger
ledger_of sys = record {
  scopes = map scope_from sys.contexts;
  next_scope = sys.world.next_scope;
  holdings = map holding_of sys.sessions;
}
