-- ===== src/System/Invariant.antt =====
-- The counter of every scope is the number of connections that hold a transaction of the scope.
use go_txnpure.Base.{
  length, get_elem?, set, All, All-append, pos, max_int64, nat_eq, bytes_Eq, ℕ, zero, suc, ◌+◌, ◌≤◌,
  ◌≡◌, refl, sym, ap, ◌∙◌, Bool, true, false, Option, none, some, List, [], ◌∷◌, ◌++◌, arith,
}
use mathlib.Core.Option.{some-injective}
use mathlib.Core.Path.{subst}
use go_txnpure.Session.{Session, new_session, holds}
use go_txnpure.State.{Context, World, scope_from}
use go_txnpure.System.Counters.{counters, Keeps}
use go_txnpure.System.Moves.{to_nat, ScopeBelow, Moves, Known}
use go_txnpure.System.{System}

-- How many connections are in a transaction of the scope.
abbrev pub count_open : ℕ → List Session → ℕ
count_open i [] = 0
count_open i (s ∷ sessions) = to_nat (holds i s) + count_open i sessions

abbrev pub SessionsBelow : ℕ → List Session → Type 0
SessionsBelow n = All (λ s. ScopeBelow n s.tx_scope)

abbrev pub ContextsBelow : ℕ → List Context → Type 0
ContextsBelow n = All (λ ctx. ScopeBelow n (scope_from ctx))

pub record Counted (sys : System) : Type 0 where
  pub exact : (i : ℕ) → counters sys.world i ≡ pos (count_open i sys.sessions)
  pub sessions_below : SessionsBelow sys.world.next_scope sys.sessions
  pub contexts_below : ContextsBelow sys.world.next_scope sys.contexts

ScopeBelow-suc : (n : ℕ) (o : Option ℕ) → ScopeBelow n o → ScopeBelow (n + 1) o
ScopeBelow-suc n none h = tt
ScopeBelow-suc n (some i) h = omega arith

pub SessionsBelow-suc : (n : ℕ) (ss : List Session) → SessionsBelow n ss → SessionsBelow (n + 1) ss
SessionsBelow-suc n [] h = tt
SessionsBelow-suc n (s ∷ ss) h = (ScopeBelow-suc n s.tx_scope h.0, SessionsBelow-suc n ss h.1)

pub ContextsBelow-suc : (n : ℕ) (cs : List Context) → ContextsBelow n cs → ContextsBelow (n + 1) cs
ContextsBelow-suc n [] h = tt
ContextsBelow-suc n (c ∷ cs) h = (ScopeBelow-suc n (scope_from c) h.0, ContextsBelow-suc n cs h.1)

-- No session is in a transaction of a scope that is not allocated yet.
not-holds : (i n : ℕ) (s : Session) → n ≤ i → ScopeBelow n s.tx_scope → holds i s ≡ false
unfolding holds
not-holds i n s h b = at s.in_tx s.tx_scope b
  where
    at :
        (t : Bool) (o : Option ℕ)
        → ScopeBelow n o
        → holds i (record { in_tx = t; tx_scope = o }) ≡ false
    at true none b = refl
    at true (some j) b = ground arith
    at false o b = refl

pub count_open-fresh :
    (i n : ℕ) (ss : List Session) → n ≤ i → SessionsBelow n ss → count_open i ss ≡ 0
count_open-fresh i n [] h b = refl
count_open-fresh i n (s ∷ ss) h b =
    rw (not-holds i n s h b.0) (omega (arith, count_open-fresh i n ss h b.1))

pub count_open-append :
    (i : ℕ) (ss : List Session) → count_open i (ss ++ new_session ∷ []) ≡ count_open i ss
unfolding holds
count_open-append i [] = omega arith
count_open-append i (s ∷ ss) = omega (arith, count_open-append i ss)

-- What the other sessions contribute, before and after session `j` changes.
record Others (i j : ℕ) (ss : List Session) (s s' : Session) : Type 0 where
  rest : ℕ
  before : count_open i ss ≡ to_nat (holds i s) + rest
  after : count_open i (set ss j s') ≡ to_nat (holds i s') + rest
  bound : suc rest ≤ length ss

pub count_open-le : (i : ℕ) (ss : List Session) → count_open i ss ≤ length ss
count_open-le i [] = omega arith
count_open-le i (s ∷ ss) = ground (arith, count_open-le i ss)

to_nat-le : (b : Bool) → to_nat b ≤ 1
to_nat-le true = omega arith
to_nat-le false = omega arith

others :
    (i j : ℕ) (ss : List Session) (s s' : Session) → get_elem? ss j ≡ some s → Others i j ss s s'
others i j [] s s' h = cc
others i zero (x ∷ ss) s s' h = record {
  rest = count_open i ss;
  before = ap (λ t. to_nat (holds i t) + count_open i ss) (some-injective _ _ h);
  after = refl;
  bound = omega (arith, count_open-le i ss);
}
others i (suc j) (x ∷ ss) s s' h =
    let o = others i j ss s s' h in
    record {
      rest = to_nat (holds i x) + o.rest;
      before = omega (arith, o.before);
      after = omega (arith, o.after);
      bound = omega (arith, o.bound, to_nat-le (holds i x));
    }

SessionsBelow-get :
    (n j : ℕ) (ss : List Session) (s : Session)
    → get_elem? ss j ≡ some s
    → SessionsBelow n ss
    → ScopeBelow n s.tx_scope
SessionsBelow-get n j [] s h b = cc
SessionsBelow-get n zero (x ∷ ss) s h b =
    subst (λ t. ScopeBelow n t.tx_scope) (some-injective _ _ h) b.0
SessionsBelow-get n (suc j) (x ∷ ss) s h b = SessionsBelow-get n j ss s h b.1

SessionsBelow-set :
    (n j : ℕ) (ss : List Session) (s : Session)
    → ScopeBelow n s.tx_scope
    → SessionsBelow n ss
    → SessionsBelow n (set ss j s)
SessionsBelow-set n j [] s h b = tt
SessionsBelow-set n zero (x ∷ ss) s h b = (h, b.1)
SessionsBelow-set n (suc j) (x ∷ ss) s h b = (b.0, SessionsBelow-set n j ss s h b.1)

pub ContextsBelow-get :
    (n k : ℕ) (cs : List Context) (ctx : Context)
    → get_elem? cs k ≡ some ctx
    → ContextsBelow n cs
    → ScopeBelow n (scope_from ctx)
ContextsBelow-get n k [] ctx h b = cc
ContextsBelow-get n zero (x ∷ cs) ctx h b =
    subst (λ c. ScopeBelow n (scope_from c)) (some-injective _ _ h) b.0
ContextsBelow-get n (suc k) (x ∷ cs) ctx h b = ContextsBelow-get n k cs ctx h b.1

-- The counters and the addresses of a world may be replaced by equal ones.
pub Counted-Keeps :
    (sys : System) (w : World)
    → Keeps sys.world w
    → Counted sys
    → Counted (record sys { world = w })
Counted-Keeps sys w k c = record {
  exact = λ i. ap (λ f. f i) k.same ∙ c.exact i;
  sessions_below = subst (λ n. SessionsBelow n sys.sessions) (sym k.fresh) c.sessions_below;
  contexts_below = subst (λ n. ContextsBelow n sys.contexts) (sym k.fresh) c.contexts_below;
}

pub Counted-context :
    (sys : System) (ctx : Context)
    → Known sys.world ctx
    → Counted sys
    → Counted (record sys { contexts = sys.contexts ++ ctx ∷ [] })
Counted-context sys ctx known c = record {
  exact = c.exact;
  sessions_below = c.sessions_below;
  contexts_below = All-append _ sys.contexts (ctx ∷ []) c.contexts_below (known, tt);
}

pub Counted-session :
    (sys : System) (j : ℕ) (s s' : Session) (w : World)
    → get_elem? sys.sessions j ≡ some s
    → length sys.sessions ≤ max_int64
    → Moves sys.world s w s'
    → Counted sys
    → Counted (record sys { world = w; sessions = set sys.sessions j s' })
Counted-session sys j s s' w h bound m c = record {
  exact = λ i. at i (others i j sys.sessions s s' h);
  sessions_below =
      subst (λ n. SessionsBelow n (set sys.sessions j s')) (sym m.fresh)
        (SessionsBelow-set _ j sys.sessions s'
          (m.below (SessionsBelow-get _ j sys.sessions s h c.sessions_below)) c.sessions_below);
  contexts_below = subst (λ n. ContextsBelow n sys.contexts) (sym m.fresh) c.contexts_below;
}
  where
    at :
        (i : ℕ)
        → Others i j sys.sessions s s'
        → counters w i ≡ pos (count_open i (set sys.sessions j s'))
    at i o =
        m.moved i o.rest (omega (arith, o.bound)) (c.exact i ∙ ap pos o.before)
        ∙ ap pos (sym o.after)
