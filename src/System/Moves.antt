-- ===== src/System/Moves.antt =====
-- What a call of a session does to the counters: it moves only the session's own transaction.
use go_txnpure.Base.{
  ◌==◌, if◌then◌else◌, Bool-cases, pos, max_int64, inc64, dec64, inc64-pos, dec64-pos, nat_eq,
  Bytes, bytes_Eq, ℕ, ◌+◌, ◌<◌, ◌≡◌, refl, sym, ap, ◌∙◌, inl, inr, Bool, true, false, not, ◌&&◌,
  Option, none, some, List, [], ◌∷◌, arith,
}
use mathlib.Core.Path.{subst}
use go_txnpure.Classify.{StatementKind, other, begin, commit, rollback, write}
use go_txnpure.Driver.Stmt.{Stmt, observe_stmt}
use go_txnpure.Session.{
  Session, holds, is_scope, open_in, close_in, count_up, count_down, open_tx, close_tx,
  observe_kind, observe, begin_tx, end_tx, run_some,
}
use go_txnpure.State.{Env, Context, World, Detector, scope_from}
use go_txnpure.System.Counters.{counters, Keeps, Keeps-refl}
use go_txnpure.System.Keeps.{
  Keeps-run_statement_checkers, Keeps-report_statement_ops, Keeps-report_unscoped_tx,
  Keeps-report_if_cross_conn,
}

abbrev pub to_nat : Bool → ℕ
to_nat true = 1
to_nat false = 0

abbrev pub ScopeBelow : ℕ → Option ℕ → Type 0
ScopeBelow n none = Unit
ScopeBelow n (some i) = i < n

-- `r` is what the other sessions contribute to the counter.
pub record Moves (w : World) (s : Session) (w' : World) (s' : Session) : Type 0 where
  pub moved :
      (i r : ℕ)
      → r < max_int64
      → counters w i ≡ pos (to_nat (holds i s) + r)
      → counters w' i ≡ pos (to_nat (holds i s') + r)
  pub fresh : w'.next_scope ≡ w.next_scope
  pub below : ScopeBelow w.next_scope s.tx_scope → ScopeBelow w.next_scope s'.tx_scope

pub Moves-trans : {u v w : World} {a b c : Session} → Moves u a v b → Moves v b w c → Moves u a w c
Moves-trans {u} {v} {w} {a} {b} {c} p q = record {
  moved = λ i r h e. q.moved i r h (p.moved i r h e);
  fresh = q.fresh ∙ p.fresh;
  below = λ h.
      subst (λ n. ScopeBelow n c.tx_scope) p.fresh
        (q.below (subst (λ n. ScopeBelow n b.tx_scope) (sym p.fresh) (p.below h)));
}

pub Moves-Keeps : {w w' : World} (s : Session) → Keeps w w' → Moves w s w' s
Moves-Keeps s k = record {
  moved = λ i r h e. ap (λ f. f i) k.same ∙ e;
  fresh = k.fresh;
  below = λ h. h;
}

abbrev idle : Session
idle = record { in_tx = false; tx_scope = none }

count_down_at :
    (w : World) (i j : ℕ)
    → counters (count_down j w) i ≡ (if j == i then dec64 (counters w j) else counters w i)
unfolding count_down
count_down_at w i j = ground arith

count_up_at :
    (w : World) (i j : ℕ)
    → counters (count_up j w) i ≡ (if j == i then inc64 (counters w j) else counters w i)
unfolding count_up
count_up_at w i j = ground arith

closing :
    (t : Bool) (o : Option ℕ) (w : World)
    → let s : Session = record { in_tx = t; tx_scope = o } in
      Moves w s (close_tx s w).1 (close_tx s w).0
unfolding close_tx holds
closing false o w = Moves-Keeps _ (Keeps-refl w)
closing true none w = record { moved = λ i r h e. e; fresh = refl; below = λ b. b }
closing true (some j) w = record {
  moved = down;
  fresh = unfold count_down in refl;
  below = λ b. tt;
}
  where
    down :
        (i r : ℕ)
        → r < max_int64
        → counters w i ≡ pos (to_nat (j == i) + r)
        → counters (count_down j w) i ≡ pos (0 + r)
    down i r h e = ground (arith, count_down_at w i j, dec64-pos r)

opening :
    (d : Detector) (env : Env) (o : Option ℕ) (s : Session) (w : World)
    → s.in_tx ≡ false
    → ScopeBelow w.next_scope o
    → Moves w s (open_in d env w o).1 (open_in d env w o).0
unfolding holds
opening d env none s w h known =
    let kept = Keeps-report_unscoped_tx d env w in
    record {
      moved = λ i r b e.
          (ap (λ f. f i) kept.same) ∙ e ∙ ap (λ t. pos (to_nat (t && is_scope i s.tx_scope) + r)) h;
      fresh = kept.fresh;
      below = λ b. tt;
    }
opening d env (some j) s w h known = record {
  moved = up;
  fresh = unfold count_up in refl;
  below = λ b. known;
}
  where
    up :
        (i r : ℕ)
        → r < max_int64
        → counters w i ≡ pos (to_nat (s.in_tx && is_scope i s.tx_scope) + r)
        → counters (count_up j w) i ≡ pos (to_nat (j == i) + r)
    up i r b e = ground (arith, count_up_at w i j, inc64-pos r)

Moves-close_tx : (s : Session) (w : World) → Moves w s (close_tx s w).1 (close_tx s w).0
Moves-close_tx s w = closing s.in_tx s.tx_scope w

Moves-open_tx :
    (d : Detector) (env : Env) (ctx : Context) (s : Session) (w : World)
    → s.in_tx ≡ false
    → ScopeBelow w.next_scope (scope_from ctx)
    → Moves w s (open_tx d env ctx s w).1 (open_tx d env ctx s w).0
unfolding open_tx
Moves-open_tx d env ctx s w h known = opening d env (scope_from ctx) s w h known

Moves-run_some :
    {A : Type 0} (list : List A) (f : World → World) (s : Session) (w : World)
    → ((u : World) → Keeps u (f u))
    → Moves w s (run_some list f w) s
Moves-run_some [] f s w k = Moves-Keeps s (Keeps-refl w)
Moves-run_some (a ∷ rest) f s w k = Moves-Keeps s (k w)

-- A context that names no scope, or one that is allocated.
abbrev pub Known : World → Context → Type 0
Known w ctx = ScopeBelow w.next_scope (scope_from ctx)

Moves-observe_kind :
    (d : Detector) (env : Env) (ctx : Context) (query : Bytes) (kind : StatementKind) (s : Session)
    (w : World)
    → Known w ctx
    → Moves w s (observe_kind d env ctx query kind s w).1 (observe_kind d env ctx query kind s w).0
unfolding observe_kind
Moves-observe_kind d env ctx query begin s w known = elim (Bool-cases s.in_tx) [
  | inl inside ↦ at_begin true (Moves-Keeps s (Keeps-refl w)) inside
  | inr outside ↦ at_begin false (Moves-open_tx d env ctx s w outside known) outside
]
  where
    at_begin :
        (b : Bool)
        → Moves w s
            (if not b then open_tx d env ctx s w else (s, w)).1
            (if not b then open_tx d env ctx s w else (s, w)).0
        → s.in_tx ≡ b
        → Moves w s
            (if not s.in_tx then open_tx d env ctx s w else (s, w)).1
            (if not s.in_tx then open_tx d env ctx s w else (s, w)).0
    at_begin b m e =
        subst
          (λ c.
            Moves w s (if not c then open_tx d env ctx s w else (s, w)).1
              (if not c then open_tx d env ctx s w else (s, w)).0)
          (sym e) m
Moves-observe_kind d env ctx query commit s w known = Moves-close_tx s w
Moves-observe_kind d env ctx query rollback s w known = Moves-close_tx s w
Moves-observe_kind d env ctx query write s w known =
    Moves-Keeps s (Keeps-report_if_cross_conn d env ctx query s w)
Moves-observe_kind d env ctx query other s w known = Moves-Keeps s (Keeps-refl w)

pub Moves-observe :
    (d : Detector) (env : Env) (ctx : Context) (query : Bytes) (s : Session) (w : World)
    → Known w ctx
    → Moves w s (observe d env ctx query s w).1 (observe d env ctx query s w).0
unfolding observe
Moves-observe d env ctx query s w known =
    Moves-trans (Moves-observe_kind d env ctx query (d.classify query) s w known)
      (Moves-run_some d.stmt_checkers _ _ _ (Keeps-run_statement_checkers d env ctx query))

pub Moves-observe_stmt :
    (d : Detector) (env : Env) (ctx : Context) (stmt : Stmt) (s : Session) (w : World)
    → Known w ctx
    → Moves w s (observe_stmt d env ctx stmt s w).1 (observe_stmt d env ctx stmt s w).0
unfolding observe_stmt
Moves-observe_stmt d env ctx stmt s w known =
    Moves-trans (Moves-observe_kind d env ctx stmt.query stmt.kind s w known)
      (Moves-run_some stmt.stmt_ops _ _ _ (Keeps-report_statement_ops d env ctx stmt.stmt_ops))

not-in_tx-close_tx : (s : Session) (w : World) → (close_tx s w).0.in_tx ≡ false
unfolding close_tx
not-in_tx-close_tx s w = closed s.in_tx s.tx_scope
  where
    closed :
        (t : Bool) (o : Option ℕ)
        → (let s : Session = record { in_tx = t; tx_scope = o } in
            (if t then close_in w o else (s, w)).0.in_tx)
          ≡ false
    closed false o = refl
    closed true none = refl
    closed true (some j) = refl

pub Moves-begin_tx :
    (d : Detector) (env : Env) (ctx : Context) (s : Session) (w : World)
    → Known w ctx
    → Moves w s (begin_tx d env ctx s w).1 (begin_tx d env ctx s w).0
unfolding begin_tx
Moves-begin_tx d env ctx s w known =
    let m = Moves-close_tx s w in
    Moves-trans m (
      Moves-open_tx d env ctx (close_tx s w).0 (close_tx s w).1 (not-in_tx-close_tx s w)
        (subst (λ n. ScopeBelow n (scope_from ctx)) (sym m.fresh) known))

pub Moves-end_tx : (s : Session) (w : World) → Moves w s (end_tx s w).1 (end_tx s w).0
unfolding end_tx
Moves-end_tx s w = Moves-close_tx s w
