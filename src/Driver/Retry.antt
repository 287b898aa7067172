-- ===== src/Driver/Retry.antt =====
-- driver.go under database/sql, which retries a statement on another connection after ErrBadConn.
use go_txnpure.Base.{
  if◌then◌else◌, nat_eq, Bytes, bytes_Eq, ◌≡◌, refl, sym, ap, ◌⊎◌, inl, inr, Bool, true, false,
  none, List, [], ◌∷◌, ◌++◌,
}
use go_txnpure.State.{Env, Context, World, Detector}
use go_txnpure.Driver.Below.{Outcome, is_bad_conn, NamedValue, ConnBelow}
use go_txnpure.Driver.Fallback.{sql_exec, sql_query, ObservedOnce}
use go_txnpure.Driver.Once.{sql_exec-ObservedOnce}
use go_txnpure.Session.{Session, observe}
use go_txnpure.Driver.Conn.{Tracked}
use mathlib.Core.Path.{subst}

-- What an execution on one of several connections leaves: the sessions of all of them, in order.
pub record Ran (D V : Type 0) : Type 0 where
  pub outcome : Outcome V
  pub db : D
  pub sessions : List Session
  pub world : World

abbrev ahead : {D V : Type 0} → Session → Ran D V → Ran D V
ahead s r = record r { sessions = s ∷ r.sessions }

abbrev pub sessions_of : {C : Type 0} → List (C × Session) → List Session
sessions_of [] = []
sessions_of ((c, s) ∷ conns) = s ∷ sessions_of conns

module _ {D V C : Type 0} (execute : C → D → Tracked → Outcome V × D × Tracked) where
  -- One attempt on each connection that the pool gives, while the error is ErrBadConn. No other call of
  -- the library comes between the attempts.
  unfoldable pub retry : C × Session → List (C × Session) → D → World → Ran D V
  retry (c, s) [] db w =
      let (o, db', (s', w')) = execute c db (s, w) in
      record { outcome = o; db = db'; sessions = s' ∷ []; world = w' }
  retry (c, s) (next ∷ more) db w =
      let (o, db', (s', w')) = execute c db (s, w) in
      let again = retry next more db' w' in
      if is_bad_conn o.error
      then ahead s' again
      else record { outcome = o; db = db'; sessions = s' ∷ sessions_of (next ∷ more); world = w' }

module _ {D A R Q : Type 0} (det : Detector) (env : Env) (ctx : Context) (query : Bytes)
    (args : List (NamedValue A)) where
  -- ExecContext and QueryContext of a sql.DB, on the connections that its pool gives in turn.
  abbrev pub db_exec :
      ConnBelow D A R Q × Session → List (ConnBelow D A R Q × Session) → D → World → Ran D R
  db_exec = retry (λ c db st. sql_exec det env c ctx query args db st)

  abbrev pub db_query :
      ConnBelow D A R Q × Session → List (ConnBelow D A R Q × Session) → D → World → Ran D Q
  db_query = retry (λ c db st. sql_query det env c ctx query args db st)

-- The session of one connection has observed the query.
pub record OneObserves (det : Detector) (env : Env) (ctx : Context) (query : Bytes)
    (ss : List Session) (w : World) (ss' : List Session) (w' : World) : Type 0 where
  pub before : List Session
  pub session : Session
  pub behind : List Session
  pub were : ss ≡ before ++ session ∷ behind
  pub are : ss' ≡ before ++ (observe det env ctx query session w).0 ∷ behind
  pub shared : w' ≡ (observe det env ctx query session w).1

-- One session has observed the query and the error is not ErrBadConn, or none has, and then there is
-- no value.
abbrev pub ObservedByOne :
    {D V : Type 0} → Detector → Env → Context → Bytes → List Session → World → Ran D V → Type 0
ObservedByOne det env ctx query ss w r =
    (OneObserves det env ctx query ss w r.sessions r.world × (is_bad_conn r.outcome.error ≡ false))
    ⊎ ((r.sessions ≡ ss) × (r.world ≡ w) × (r.outcome.value ≡ none))

ahead-ObservedByOne :
    {D V : Type 0} (det : Detector) (env : Env) (ctx : Context) (query : Bytes) (s : Session)
    (ss : List Session) (w : World) (r : Ran D V)
    → ObservedByOne det env ctx query ss w r
    → ObservedByOne det env ctx query (s ∷ ss) w (ahead s r)
ahead-ObservedByOne det env ctx query s ss w r (inl (one, good)) = inl (
  record {
    before = s ∷ one.before;
    session = one.session;
    behind = one.behind;
    were = ap (λ l. s ∷ l) one.were;
    are = ap (λ l. s ∷ l) one.are;
    shared = one.shared;
  },
  good,
)
ahead-ObservedByOne det env ctx query s ss w r (inr (same, still, nothing)) =
    inr (ap (λ l. s ∷ l) same, still, nothing)

module _ {D V C : Type 0} (det : Detector) (env : Env) (ctx : Context) (query : Bytes)
    (execute : C → D → Tracked → Outcome V × D × Tracked)
    (observes : (c : C) (db : D) (st : Tracked)
      → ObservedOnce det env ctx query st (execute c db st)) where
  -- The attempt that answers.
  last-ObservedByOne :
      (s : Session) (behind : List Session) (w : World) (o : Outcome V) (db : D) (s' : Session)
      (w' : World)
      → ObservedOnce det env ctx query (s, w) (o, db, (s', w'))
      → ObservedByOne {D = D} {V = V} det env ctx query
          (s ∷ behind)
          w
          (record { outcome = o; db = db; sessions = s' ∷ behind; world = w' })
  last-ObservedByOne s behind w o db s' w' (inl (seen, good)) = inl (
    record {
      before = [];
      session = s;
      behind = behind;
      were = refl;
      are = ap (λ st. st.0 ∷ behind) seen;
      shared = ap (λ st. st.1) seen;
    },
    good,
  )
  last-ObservedByOne s behind w o db s' w' (inr (same, nothing)) =
      inr (ap (λ st. st.0 ∷ behind) same, ap (λ st. st.1) same, nothing)

  -- An attempt that ends in ErrBadConn has changed nothing.
  bad-unobserved :
      (s : Session) (w : World) (o : Outcome V) (db : D) (st : Tracked)
      → ObservedOnce det env ctx query (s, w) (o, db, st)
      → is_bad_conn o.error ≡ true
      → st ≡ (s, w)
  bad-unobserved s w o db st (inl (seen, good)) bad = absurd (cc)
  bad-unobserved s w o db st (inr (same, nothing)) bad = same

  retry-ObservedByOne :
      (c : C) (s : Session) (more : List (C × Session)) (db : D) (w : World)
      → ObservedByOne det env ctx query (s ∷ sessions_of more) w (retry execute (c, s) more db w)
  unfolding retry
  retry-ObservedByOne c s [] db w =
      let (o, db', (s', w')) = execute c db (s, w) in
      last-ObservedByOne s [] w o db' s' w' (observes c db (s, w))
  retry-ObservedByOne c s ((c', t) ∷ more) db w =
      at (is_bad_conn r.0.error) refl (λ u. retry-ObservedByOne c' t more r.1 u)
    where
      r : Outcome V × D × Tracked
      r = execute c db (s, w)

      at :
          (bad : Bool)
          → is_bad_conn r.0.error ≡ bad
          → ((u : World)
              → ObservedByOne det env ctx query
                  (t ∷ sessions_of more)
                  u
                  (retry execute (c', t) more r.1 u))
          → ObservedByOne det env ctx query (s ∷ (t ∷ sessions_of more)) w (
              if bad then ahead r.2.0 (retry execute (c', t) more r.1 r.2.1) else record {
                outcome = r.0;
                db = r.1;
                sessions = r.2.0 ∷ (t ∷ sessions_of more);
                world = r.2.1;
              })
      at true bad again =
          subst
            (λ (st : Tracked).
              ObservedByOne det env ctx query (s ∷ (t ∷ sessions_of more)) w
                (ahead st.0 (retry execute (c', t) more r.1 st.1)))
            (sym (bad-unobserved s w r.0 r.1 r.2 (observes c db (s, w)) bad))
            (ahead-ObservedByOne det env ctx query s (t ∷ sessions_of more) w
              (retry execute (c', t) more r.1 w) (again w))
      at false good again =
          last-ObservedByOne s (t ∷ sessions_of more) w r.0 r.1 r.2.0 r.2.1 (observes c db (s, w))

-- However database/sql comes to execute a statement, by the fast path or by preparing it, on as many
-- connections as it tries after ErrBadConn, and whatever the drivers below answer: the session of
-- exactly one of the connections has observed the statement, once, and the error is not ErrBadConn;
-- or sessions and shared state are as they were, and there is no value. The same holds with rows.
pub db_exec-ObservedByOne :
    {D A R Q : Type 0} (det : Detector) (env : Env) (ctx : Context) (query : Bytes)
    (args : List (NamedValue A)) (c : ConnBelow D A R Q) (s : Session)
    (more : List (ConnBelow D A R Q × Session)) (db : D) (w : World)
    → ObservedByOne det env ctx query
        (s ∷ sessions_of more)
        w
        (db_exec det env ctx query args (c, s) more db w)
      × ObservedByOne det env ctx query
          (s ∷ sessions_of more)
          w
          (db_query det env ctx query args (c, s) more db w)
db_exec-ObservedByOne det env ctx query args c s more db w = (
  retry-ObservedByOne det env ctx query (λ c db st. sql_exec det env c ctx query args db st)
      (λ c db st. (sql_exec-ObservedOnce det env c ctx query args db st).0) c s more db w,
  retry-ObservedByOne det env ctx query (λ c db st. sql_query det env c ctx query args db st)
      (λ c db st. (sql_exec-ObservedOnce det env c ctx query args db st).1) c s more db w,
)
