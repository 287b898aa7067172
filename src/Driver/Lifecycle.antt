-- ===== src/Driver/Lifecycle.antt =====
-- driver.go: a transaction through the wrapper, from its begin to its end.
use go_txnpure.Base.{
  ◌==◌, if◌then◌else◌, ==_iff, Bool-cases, pos, max_int64, inc64, dec64, inc64-pos, dec64-pos,
  nat_eq, codes, bytes_Eq, ℕ, ◌<◌, ◌≡◌, refl, sym, ap, ◌∙◌, inl, inr, Bool, true, false, not,
  Option, none, some,
}
use go_txnpure.Driver.Below.{
  Error, Outcome, fail, new_error, TxOptions, TxBelow, ConnBelow, is_default,
}
use go_txnpure.Driver.Conn.{Tracked, opened, conn_begin_tx, tx_commit, tx_rollback}
use go_txnpure.Session.{
  new_session, begin_tx, end_tx, open_tx, close_tx, open_in, count_up, count_down,
  report_unscoped_tx,
}
use go_txnpure.State.{Env, Context, scope_from, World, Detector, report}

-- Every counter is a number that has room above it.
abbrev pub Room : World → Type 0
Room w = (i : ℕ) → (n : ℕ) × ((w.scope_at i).open_txs ≡ pos n) × (n < max_int64)

-- The session is closed, and each counter is as it was.
abbrev pub Restored : World → Tracked → Type 0
Restored w (s, w') =
    (s ≡ new_session) × ((i : ℕ) → (w'.scope_at i).open_txs ≡ (w.scope_at i).open_txs)

report_unscoped_tx-open_txs :
    (d : Detector) (env : Env) (w : World) (i : ℕ)
    → ((report_unscoped_tx d env w).scope_at i).open_txs ≡ (w.scope_at i).open_txs
unfolding report_unscoped_tx report
report_unscoped_tx-open_txs d env w i = elim (Bool-cases d.report_unscoped) [
  | inl on ↦ rw on refl
  | inr off ↦ rw off refl
]

count_down-count_up :
    (j : ℕ) (w : World)
    → Room w
    → (i : ℕ) → ((count_down j (count_up j w)).scope_at i).open_txs ≡ (w.scope_at i).open_txs
unfolding count_up count_down
count_down-count_up j w room i = elim (Bool-cases (j == i)) [
  | inl hit ↦
      rw (hit, (==_iff j j).1 refl) (there ∙ ap (λ k. (w.scope_at k).open_txs) ((==_iff j i).0 hit))
  | inr miss ↦ rw miss refl
]
  where
    there : dec64 (inc64 (w.scope_at j).open_txs) ≡ (w.scope_at j).open_txs
    there = let (n, e, lt) = room j in ap dec64 (ap inc64 e ∙ inc64-pos n lt) ∙ dec64-pos n ∙ sym e

end_tx-begin_tx :
    (d : Detector) (env : Env) (ctx : Context) (w : World)
    → Room w
    → (let (s, w') = begin_tx d env ctx new_session w in Restored w (end_tx s w'))
unfolding begin_tx end_tx open_tx close_tx
end_tx-begin_tx d env ctx w room = at (scope_from ctx)
  where
    at : (o : Option ℕ) → (let (s, w') = open_in d env w o in Restored w (close_tx s w'))
    at none = (refl, report_unscoped_tx-open_txs d env w)
    at (some j) = (refl, count_down-count_up j w room)

-- The transaction that a begin gives, committed or rolled back.
abbrev pub Ends :
    {D : Type 0}
    → World
    → (TxBelow D → D → Tracked → Option Error × D × Tracked)
    → Outcome (TxBelow D) × D × Tracked
    → Type 0
Ends w end (o, db, st) = elim o.error [
  | some e ↦ st ≡ (new_session, w)
  | none ↦ elim o.value [ none ↦ Unit | some tx ↦ Restored w (end tx db st).2 ]
]

-- On a closed connection, a begin that fails below leaves session and counters as they are; after
-- one that succeeds, a commit or a rollback closes the session and restores every counter, whether
-- or not that fails below, if every counter is a number that has room above it.
pub conn_begin_tx-Ends :
    {D A R Q : Type 0} (det : Detector) (env : Env) (c : ConnBelow D A R Q) (ctx : Context)
    (opts : TxOptions) (db : D) (w : World)
    → Room w
    → Ends w tx_commit (conn_begin_tx det env c ctx opts db (new_session, w))
      × Ends w tx_rollback (conn_begin_tx det env c ctx opts db (new_session, w))
unfolding conn_begin_tx opened tx_commit tx_rollback
conn_begin_tx-Ends {D} {A} {R} {Q} det env c ctx opts db w room = at c.begin_with
  where
    Both : Outcome (TxBelow D) × D × Tracked → Type 0
    Both r = Ends w tx_commit r × Ends w tx_rollback r

    begun :
        (e : Option Error) (v : Option (TxBelow D)) (db' : D)
        → Both (opened det env ctx (record { value = v; error = e }, db') (new_session, w))
    begun (some e) v db' = (refl, refl)
    begun none none db' = (tt, tt)
    begun none (some tx) db' =
        (end_tx-begin_tx det env ctx w room, end_tx-begin_tx det env ctx w room)

    after : (r : Outcome (TxBelow D) × D) → Both (opened det env ctx r (new_session, w))
    after r = begun r.0.error r.0.value r.1

    plain :
        (b : Bool) (refused : Error)
        → Both (
            if b
            then (fail refused, db, (new_session, w))
            else opened det env ctx (c.begin_plain db) (new_session, w))
    plain true refused = (refl, refl)
    plain false refused = after (c.begin_plain db)

    refused : Error
    refused =
        new_error
          (codes "txnpure: underlying driver does not support non-default transaction options")

    at :
        (o : Option (Context → TxOptions → D → Outcome (TxBelow D) × D))
        → Both (elim o [
          | some f ↦ opened det env ctx (f ctx opts db) (new_session, w)
          | none ↦
              if not (is_default opts)
              then (fail refused, db, (new_session, w))
              else opened det env ctx (c.begin_plain db) (new_session, w)
        ])
    at (some f) = after (f ctx opts db)
    at none = plain (not (is_default opts)) refused
