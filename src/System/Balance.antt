-- ===== src/System/Balance.antt =====
-- Every history of calls keeps the counters exact.
use go_txnpure.Base.{
  ◌==◌, if◌then◌else◌, ==_iff, Bool-cases, length, get_elem?, All-append, ℤ, pos, max_int64, nat_eq,
  Bytes, bytes_Eq, ℕ, ◌+◌, ◌≤◌, ◌≡◌, refl, sym, ap, ◌∙◌, ◌⊎◌, inl, inr, true, false, Option, none,
  some, List, [], ◌∷◌, ◌++◌, arith,
}
use mathlib.Core.Path.{subst}
use go_txnpure.Allow.{allow_in_scope, allow_in_transaction_here}
use go_txnpure.Detector.{start_scope, report_nesting, apply_scope_options}
use go_txnpure.Report.{ScopeAttr}
use go_txnpure.Session.{Session}
use go_txnpure.State.{Env, Context, with_scope, Scope, World, Detector, scope_from, put_scope}
use go_txnpure.System.Counters.{Keeps, Keeps-refl, Keeps-if, Keeps-report}
use go_txnpure.System.Invariant.{
  count_open, count_open-fresh, Counted, Counted-Keeps, Counted-context, Counted-session,
  ContextsBelow-get, ContextsBelow-suc, SessionsBelow-suc,
}
use go_txnpure.System.Keeps.{Keeps-allow_in_transaction_here}
use go_txnpure.System.Moves.{ScopeBelow, Moves, Known}
use go_txnpure.System.{System, on_context, on_session, grow}

apply_scope_options-open_txs :
    (opts : List (List ScopeAttr)) (s : Scope) → (apply_scope_options opts s).open_txs ≡ s.open_txs
unfolding apply_scope_options
apply_scope_options-open_txs [] s = refl
apply_scope_options-open_txs (attrs ∷ opts) s =
    apply_scope_options-open_txs opts (record s { attrs = s.attrs ++ attrs })

pub Keeps-report_nesting :
    (d : Detector) (env : Env) (name : Bytes) (w : World) (o : Option ℕ)
    → Keeps w (report_nesting d env name w o)
Keeps-report_nesting d env name w none = Keeps-refl w
Keeps-report_nesting d env name w (some outer) =
    Keeps-if d.report_nested (Keeps-report env _ w) (Keeps-refl w)

-- A new scope, whose counter is 0, at the next address.
Counted-new_scope :
    (sys : System) (s : Scope) (ctx : Context)
    → s.open_txs ≡ pos 0
    → Counted sys
    → Counted (record {
      world = record (put_scope sys.world.next_scope s sys.world) {
        next_scope = sys.world.next_scope + 1;
      };
      contexts = sys.contexts ++ with_scope sys.world.next_scope ctx ∷ [];
      sessions = sys.sessions;
    })
unfolding scope_from
Counted-new_scope sys s ctx zero_open c = record {
  exact = λ i. at i (Bool-cases (n == i));
  sessions_below = SessionsBelow-suc n sys.sessions c.sessions_below;
  contexts_below =
      All-append _ sys.contexts (with_scope n ctx ∷ [])
        (ContextsBelow-suc n sys.contexts c.contexts_below) (omega arith, tt);
}
  where
    n : ℕ
    n = sys.world.next_scope

    at :
        (i : ℕ)
        → ((n == i) ≡ true) ⊎ ((n == i) ≡ false)
        → (if n == i then s else sys.world.scope_at i).open_txs ≡ pos (count_open i sys.sessions)
    at i (inl hit) = rw hit (
        zero_open
        ∙ ap pos (
            sym (
              count_open-fresh i n sys.sessions (omega (arith, (==_iff n i).0 hit))
                c.sessions_below)))
    at i (inr miss) = rw miss (c.exact i)

abbrev pub Fits : System → Type 0
Fits sys = length sys.sessions ≤ max_int64

pub on_context-Counted :
    (sys : System) (k : ℕ) (f : Context → System)
    → ((ctx : Context) → Known sys.world ctx → Counted (f ctx))
    → Counted sys
    → Counted (on_context sys (get_elem? sys.contexts k) f)
on_context-Counted sys k f keep c = at (get_elem? sys.contexts k) refl
  where
    at : (o : Option Context) → get_elem? sys.contexts k ≡ o → Counted (on_context sys o f)
    at none e = c
    at (some ctx) e = keep ctx (ContextsBelow-get _ k sys.contexts ctx e c.contexts_below)

pub on_session-Counted :
    (sys : System) (j : ℕ) (f : Session → World → Session × World)
    → Fits sys
    → ((s : Session) → Moves sys.world s (f s sys.world).1 (f s sys.world).0)
    → Counted sys
    → Counted (on_session sys j (get_elem? sys.sessions j) f)
on_session-Counted sys j f fits m c = at (get_elem? sys.sessions j) refl
  where
    at : (o : Option Session) → get_elem? sys.sessions j ≡ o → Counted (on_session sys j o f)
    at none e = c
    at (some s) e = Counted-session sys j s (f s sys.world).0 (f s sys.world).1 e fits (m s) c

pub start_scope-Counted :
    (d : Detector) (env : Env) (ctx : Context) (name : Bytes) (opts : List (List ScopeAttr))
    (sys : System)
    → Counted sys
    → Counted (grow sys (start_scope d env ctx name opts sys.world))
unfolding start_scope
start_scope-Counted d env ctx name opts sys c =
    Counted-new_scope (record sys { world = report_nesting d env name sys.world (scope_from ctx) })
      _ ctx (apply_scope_options-open_txs opts _)
      (Counted-Keeps sys _ (Keeps-report_nesting d env name sys.world (scope_from ctx)) c)

allow-Known :
    (ctx : Context) (reason : Bytes) (counts : List ℤ) (w : World)
    → Known w ctx
    → Known w (allow_in_transaction_here ctx reason counts w).0
unfolding allow_in_transaction_here scope_from
allow-Known ctx reason counts w known = at counts (scope_from ctx) refl
  where
    at :
        (cs : List ℤ) (o : Option ℕ)
        → scope_from ctx ≡ o
        → Known w (allow_in_scope ctx reason cs w o).0
    at cs none e = known
    at [] (some i) e = subst (ScopeBelow w.next_scope) e known
    at (c ∷ cs) (some i) e = subst (ScopeBelow w.next_scope) e known

pub allow-Counted :
    (ctx : Context) (reason : Bytes) (counts : List ℤ) (sys : System)
    → Known sys.world ctx
    → Counted sys
    → Counted (grow sys (allow_in_transaction_here ctx reason counts sys.world))
allow-Counted ctx reason counts sys known c =
    let k = Keeps-allow_in_transaction_here ctx reason counts sys.world in
    Counted-context
      (record sys { world = (allow_in_transaction_here ctx reason counts sys.world).1 }) _
      (subst
        (λ n. ScopeBelow n (scope_from (allow_in_transaction_here ctx reason counts sys.world).0))
        (sym k.fresh) (allow-Known ctx reason counts sys.world known))
      (Counted-Keeps sys _ k c)
