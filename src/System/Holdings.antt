-- ===== src/System/Holdings.antt =====
-- What each operation of the library does to the ledger.
use go_txnpure.Base.{
  if◌then◌else◌, get_elem?, set, nat_eq, Bytes, bytes_Eq, ℕ, zero, suc, ◌≡◌, refl, ap, ◌∙◌, Bool,
  true, false, not, Option, none, some, List, [], ◌∷◌, ◌++◌, map,
}
use mathlib.Core.Option.{some-injective}
use go_txnpure.Classify.{StatementKind, other, begin, commit, rollback, write}
use go_txnpure.Session.{
  Session, count_up, count_down, open_in, close_in, open_tx, close_tx, observe_kind, observe,
  begin_tx, end_tx, run_some,
}
use go_txnpure.State.{Env, Context, World, Detector, scope_from}
use go_txnpure.System.{System, on_context, on_session}
use go_txnpure.System.Keeps.{
  Keeps-run_statement_checkers, Keeps-report_unscoped_tx, Keeps-report_if_cross_conn,
}
use go_txnpure.System.Ledger.{
  Holding, idle, joined, Ledger, on_scope, on_holding, after_kind, holding_of, ledger_of,
}

get_elem?-map {ℓ κ} :
    {A : Type ℓ} {B : Type κ} (f : A → B) (xs : List A) (i : ℕ) (a : Option A)
    → get_elem? xs i ≡ a
    → get_elem? (map f xs) i ≡ elim a [ none ↦ none | some x ↦ some (f x) ]
get_elem?-map f [] i none h = refl
get_elem?-map f [] i (some x) h = cc
get_elem?-map f (x ∷ xs) zero none h = cc
get_elem?-map f (x ∷ xs) zero (some y) h = ap some (ap f (some-injective _ _ h))
get_elem?-map f (x ∷ xs) (suc i) a h = get_elem?-map f xs i a h

set-map {ℓ κ} :
    {A : Type ℓ} {B : Type κ} (f : A → B) (xs : List A) (i : ℕ) (x : A)
    → map f (set xs i x) ≡ set (map f xs) i (f x)
set-map f [] i x = refl
set-map f (y ∷ xs) zero x = refl
set-map f (y ∷ xs) (suc i) x = ap (λ l. f y ∷ l) (set-map f xs i x)

pub map-append {ℓ κ} :
    {A : Type ℓ} {B : Type κ} (f : A → B) (xs ys : List A) → map f (xs ++ ys) ≡ map f xs ++ map f ys
map-append f [] ys = refl
map-append f (x ∷ xs) ys = ap (λ l. f x ∷ l) (map-append f xs ys)

pub on_context-ledger :
    (sys : System) (k : ℕ) (f : Context → System) (g : Option ℕ → Ledger)
    → ((ctx : Context) → ledger_of (f ctx) ≡ g (scope_from ctx))
    → ledger_of (on_context sys (get_elem? sys.contexts k) f)
      ≡ on_scope (ledger_of sys) (get_elem? (map scope_from sys.contexts) k) g
on_context-ledger sys k f g h = at (get_elem? sys.contexts k) refl
  where
    at :
        (o : Option Context)
        → get_elem? sys.contexts k ≡ o
        → ledger_of (on_context sys o f)
          ≡ on_scope (ledger_of sys) (get_elem? (map scope_from sys.contexts) k) g
    at none e = rw (get_elem?-map scope_from sys.contexts k none e) refl
    at (some ctx) e = rw (get_elem?-map scope_from sys.contexts k (some ctx) e) (h ctx)

pub on_session-ledger :
    (sys : System) (j : ℕ) (f : Session → World → Session × World) (u : Holding → Holding)
    → ((s : Session) → holding_of (f s sys.world).0 ≡ u (holding_of s))
    → ((s : Session) → (f s sys.world).1.next_scope ≡ sys.world.next_scope)
    → ledger_of (on_session sys j (get_elem? sys.sessions j) f)
      ≡ on_holding (ledger_of sys) j (get_elem? (map holding_of sys.sessions) j) u
on_session-ledger sys j f u holds_on fresh = at (get_elem? sys.sessions j) refl
  where
    at :
        (o : Option Session)
        → get_elem? sys.sessions j ≡ o
        → ledger_of (on_session sys j o f)
          ≡ on_holding (ledger_of sys) j (get_elem? (map holding_of sys.sessions) j) u
    at none e = rw (get_elem?-map holding_of sys.sessions j none e) refl
    at (some s) e = rw (get_elem?-map holding_of sys.sessions j (some s) e) (
        ap
          (λ n. record (ledger_of sys) {
            next_scope = n;
            holdings = map holding_of (set sys.sessions j (f s sys.world).0);
          })
          (fresh s)
        ∙ ap (λ l. record (ledger_of sys) { holdings = l })
            (set-map holding_of sys.sessions j (f s sys.world).0
              ∙ ap (set (map holding_of sys.sessions) j) (holds_on s)))

-- What the session operations do to the connection.
holding_of-open_tx :
    (d : Detector) (env : Env) (ctx : Context) (s : Session) (w : World)
    → holding_of (open_tx d env ctx s w).0 ≡ joined (scope_from ctx)
unfolding open_tx
holding_of-open_tx d env ctx s w = at (scope_from ctx)
  where
    at : (o : Option ℕ) → holding_of (open_in d env w o).0 ≡ joined o
    at none = refl
    at (some i) = refl

holding_of-close_tx : (s : Session) (w : World) → holding_of (close_tx s w).0 ≡ idle
unfolding close_tx
holding_of-close_tx s w = at s.in_tx s.tx_scope
  where
    at :
        (t : Bool) (o : Option ℕ)
        → holding_of (if t then close_in w o else (record { in_tx = t; tx_scope = o }, w)).0 ≡ idle
    at true none = refl
    at true (some i) = refl
    at false o = refl

holding_of-observe_kind :
    (d : Detector) (env : Env) (ctx : Context) (query : Bytes) (kind : StatementKind) (s : Session)
    (w : World)
    → holding_of (observe_kind d env ctx query kind s w).0
      ≡ after_kind kind (scope_from ctx) (holding_of s)
unfolding observe_kind
holding_of-observe_kind d env ctx query begin s w = at s.in_tx s.tx_scope
  where
    at :
        (t : Bool) (o : Option ℕ)
        → let s : Session = record { in_tx = t; tx_scope = o } in
          holding_of (if not t then open_tx d env ctx s w else (s, w)).0
          ≡ after_kind begin (scope_from ctx) (holding_of s)
    at true none = refl
    at true (some i) = refl
    at false o = holding_of-open_tx d env ctx (record { in_tx = false; tx_scope = o }) w
holding_of-observe_kind d env ctx query commit s w = holding_of-close_tx s w
holding_of-observe_kind d env ctx query rollback s w = holding_of-close_tx s w
holding_of-observe_kind d env ctx query write s w = refl
holding_of-observe_kind d env ctx query other s w = refl

-- No operation of a session takes an address for a scope.
open_tx-next_scope :
    (d : Detector) (env : Env) (ctx : Context) (s : Session) (w : World)
    → (open_tx d env ctx s w).1.next_scope ≡ w.next_scope
unfolding open_tx
open_tx-next_scope d env ctx s w = at (scope_from ctx)
  where
    at : (o : Option ℕ) → (open_in d env w o).1.next_scope ≡ w.next_scope
    at none = (Keeps-report_unscoped_tx d env w).fresh
    at (some i) = unfold count_up in refl

close_tx-next_scope : (s : Session) (w : World) → (close_tx s w).1.next_scope ≡ w.next_scope
unfolding close_tx
close_tx-next_scope s w = at s.in_tx s.tx_scope
  where
    at :
        (t : Bool) (o : Option ℕ)
        → (if t then close_in w o else (record { in_tx = t; tx_scope = o }, w)).1.next_scope
          ≡ w.next_scope
    at true none = refl
    at true (some i) = unfold count_down in refl
    at false o = refl

observe_kind-next_scope :
    (d : Detector) (env : Env) (ctx : Context) (query : Bytes) (kind : StatementKind) (s : Session)
    (w : World)
    → (observe_kind d env ctx query kind s w).1.next_scope ≡ w.next_scope
unfolding observe_kind
observe_kind-next_scope d env ctx query begin s w = at s.in_tx
  where
    at : (t : Bool) → (if not t then open_tx d env ctx s w else (s, w)).1.next_scope ≡ w.next_scope
    at true = refl
    at false = open_tx-next_scope d env ctx s w
observe_kind-next_scope d env ctx query commit s w = close_tx-next_scope s w
observe_kind-next_scope d env ctx query rollback s w = close_tx-next_scope s w
observe_kind-next_scope d env ctx query write s w =
    (Keeps-report_if_cross_conn d env ctx query s w).fresh
observe_kind-next_scope d env ctx query other s w = refl

run_some-next_scope {ℓ} :
    {A : Type ℓ} (l : List A) (f : World → World) (w : World)
    → (f w).next_scope ≡ w.next_scope
    → (run_some l f w).next_scope ≡ w.next_scope
run_some-next_scope [] f w h = refl
run_some-next_scope (a ∷ l) f w h = h

pub observe-next_scope :
    (d : Detector) (env : Env) (ctx : Context) (query : Bytes) (s : Session) (w : World)
    → (observe d env ctx query s w).1.next_scope ≡ w.next_scope
unfolding observe
observe-next_scope d env ctx query s w =
    let w' = (observe_kind d env ctx query (d.classify query) s w).1 in
    run_some-next_scope d.stmt_checkers _ w' (Keeps-run_statement_checkers d env ctx query w').fresh
    ∙ observe_kind-next_scope d env ctx query (d.classify query) s w

pub holding_of-observe :
    (d : Detector) (env : Env) (ctx : Context) (query : Bytes) (s : Session) (w : World)
    → holding_of (observe d env ctx query s w).0
      ≡ after_kind (d.classify query) (scope_from ctx) (holding_of s)
unfolding observe
holding_of-observe d env ctx query s w =
    holding_of-observe_kind d env ctx query (d.classify query) s w

pub begin_tx-next_scope :
    (d : Detector) (env : Env) (ctx : Context) (s : Session) (w : World)
    → (begin_tx d env ctx s w).1.next_scope ≡ w.next_scope
unfolding begin_tx
begin_tx-next_scope d env ctx s w =
    open_tx-next_scope d env ctx (close_tx s w).0 (close_tx s w).1 ∙ close_tx-next_scope s w

pub holding_of-begin_tx :
    (d : Detector) (env : Env) (ctx : Context) (s : Session) (w : World)
    → holding_of (begin_tx d env ctx s w).0 ≡ joined (scope_from ctx)
unfolding begin_tx
holding_of-begin_tx d env ctx s w = holding_of-open_tx d env ctx (close_tx s w).0 (close_tx s w).1

pub end_tx-next_scope : (s : Session) (w : World) → (end_tx s w).1.next_scope ≡ w.next_scope
unfolding end_tx
end_tx-next_scope s w = close_tx-next_scope s w

pub holding_of-end_tx : (s : Session) (w : World) → holding_of (end_tx s w).0 ≡ idle
unfolding end_tx
holding_of-end_tx s w = holding_of-close_tx s w
