-- ===== src/Detector/RoundTrip.antt =====
-- The HTTP fast path: skipping the check loses no report.
use go_txnpure.Base.{
  if◌then◌else◌, Bool-cases, pos, leb_ℤ, nat_eq, Bytes, bytes_Eq, ℕ, ◌≡◌, refl, sym, ap, ◌⊎◌, inl,
  inr, Bool, true, false, not, Option, none, some, [],
}
use go_txnpure.Check.{check, check_in, check_needed, needed_in}
use go_txnpure.Detector.{Request, http_op, round_trip}
use go_txnpure.Identity.{Op}
use go_txnpure.State.{Env, Context, World, Detector, scope_and_mark_from}

not-false : (b : Bool) → not b ≡ false → b ≡ true
not-false true h = refl
not-false false h = cc

-- Where `checkNeeded` says no, a check without options changes nothing.
check_not_needed :
    (d : Detector) (env : Env) (ctx : Context) (op : Op) (w : World)
    → check_needed d ctx w ≡ false
    → check d env ctx op [] w ≡ w
unfolding check_needed check
check_not_needed d env ctx op w = at (scope_and_mark_from ctx)
  where
    at : (o : Option (ℕ × Option ℕ)) → needed_in d w o ≡ false → check_in d env op [] w o ≡ w
    at none h = rw h
    at (some (i, none)) h = rw (not-false (leb_ℤ (w.scope_at i).open_txs (pos 0)) h)
    at (some (i, some m)) h = cc

-- The wrapped transport behaves as one that checks every request: the guard in front of the check
-- is only an optimisation.
pub round_trip-check {ℓ} :
    {R : Type ℓ} (d : Detector) (env : Env) (name : Request → Bytes)
    (send : Request → World → R × World) (req : Request) (w : World)
    → round_trip d env name send req w
      ≡ send req (check d env req.context (http_op (name req)) [] w)
unfolding round_trip
round_trip-check d env name send req w =
    ap (send req) (guarded (Bool-cases (check_needed d req.context w)))
  where
    guarded :
        (check_needed d req.context w ≡ true) ⊎ (check_needed d req.context w ≡ false)
        → (if check_needed d req.context w
            then check d env req.context (http_op (name req)) [] w
            else w)
          ≡ check d env req.context (http_op (name req)) [] w
    guarded (inl yes_needed) = rw yes_needed
    guarded (inr no_needed) = rw no_needed (sym (check_not_needed d env req.context _ w no_needed))
