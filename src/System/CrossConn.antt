-- ===== src/System/CrossConn.antt =====
-- The cross-connection verdict against the connections themselves.
use go_txnpure.Base.{
  ◌==◌, if◌then◌else◌, length, get_elem?, ℤ, pos, leb_ℤ, eq_ℤ, max_int64, dec64, dec64-pos, nat_eq,
  Bytes, bytes_Eq, ℕ, zero, suc, ◌+◌, ◌≤◌, ◌≡◌, refl, sym, ap, ◌∙◌, Bool, true, false, Option, some,
  List, [], ◌∷◌, arith,
}
use mathlib.Core.Option.{some-injective}
use go_txnpure.Check.{decide_and_report, outside_region, no_config}
use go_txnpure.Detector.{DetectorOption}
use go_txnpure.Session.{Session, holds, cross_conn_in, report_if_cross_conn, write_op}
use go_txnpure.State.{Env, Context, World, Detector, scope_and_mark_from}
use go_txnpure.System.Counters.{counters}
use go_txnpure.System.Histories.{reached, reached-Counted}
use go_txnpure.System.Invariant.{count_open}
use go_txnpure.System.Moves.{to_nat}
use go_txnpure.System.{Call}

-- The list without the element at a position.
abbrev pub erase_at {ℓ} : {A : Type ℓ} → ℕ → List A → List A
erase_at j [] = []
erase_at zero (x ∷ xs) = xs
erase_at (suc j) (x ∷ xs) = x ∷ erase_at j xs

count_open-erase_at :
    (i j : ℕ) (ss : List Session) (s : Session)
    → get_elem? ss j ≡ some s
    → count_open i ss ≡ to_nat (holds i s) + count_open i (erase_at j ss)
count_open-erase_at i j [] s h = cc
count_open-erase_at i zero (x ∷ ss) s h =
    ap (λ t. to_nat (holds i t) + count_open i ss) (some-injective _ _ h)
count_open-erase_at i (suc j) (x ∷ ss) s h = omega (arith, count_open-erase_at i j ss s h)

-- What a write of session `j` should report in scope `i`, by the other connections: nothing to
-- report but a stale region where no transaction of the scope is open at all, and otherwise an event
-- with their number.
abbrev pub expected_write : Detector → Env → ℕ → Option ℕ → Bytes → ℕ → List Session → World → World
expected_write d env i mark query j sessions w =
    if count_open i (erase_at j sessions) == 0
    then if count_open i sessions == 0 then outside_region env i (write_op query) mark w else w
    else decide_and_report d env i mark (write_op query) (pos (count_open i (erase_at j sessions)))
        no_config w

-- The tests of the code on a counter that is exact.
foreign_test :
    (total : ℤ) (b : Bool) (foreign : ℕ) (stale quiet : World) (decided : ℤ → World)
    → total ≡ pos (to_nat b + foreign)
    → (if leb_ℤ (if b then dec64 total else total) (pos 0)
        then if eq_ℤ total (pos 0) then stale else quiet
        else decided (if b then dec64 total else total))
      ≡ (if foreign == 0
          then if to_nat b + foreign == 0 then stale else quiet
          else decided (pos foreign))
foreign_test total true zero stale quiet decided e = rw (e, dec64-pos 0) refl
foreign_test total true (suc n) stale quiet decided e =
    let below : dec64 (pos (1 + suc n)) ≡ pos (suc n) =
      ap dec64 (ap pos (omega arith)) ∙ dec64-pos (suc n) in
    rw (e, below) (ground arith)
foreign_test total false zero stale quiet decided e = rw e refl
foreign_test total false (suc n) stale quiet decided e = rw e (ground arith)

-- On every system that a history of calls can reach, a write of session `j` in scope `i` reports
-- exactly what the other connections call for: nothing, or a stale region, if none of them holds a
-- transaction of the scope, and otherwise an event with the number of those that do.
pub cross_conn_exact :
    (opts : List DetectorOption) (calls : List (Env × Call)) (d : Detector) (env : Env)
    (ctx : Context) (i : ℕ) (mark : Option ℕ) (j : ℕ) (s : Session) (query : Bytes)
    → length calls ≤ max_int64
    → scope_and_mark_from ctx ≡ some (i, mark)
    → get_elem? (reached opts calls).sessions j ≡ some s
    → report_if_cross_conn d env ctx query s (reached opts calls).world
      ≡ expected_write d env i mark query j (reached opts calls).sessions (reached opts calls).world
unfolding report_if_cross_conn
cross_conn_exact opts calls d env ctx i mark j s query fits at_scope at_session =
    let sys = reached opts calls in
    let split = count_open-erase_at i j sys.sessions s at_session in
    let n = count_open i (erase_at j sys.sessions) in
    let stale = outside_region env i (write_op query) mark sys.world in
    let decided =
      λ (k : ℤ). decide_and_report d env i mark (write_op query) k no_config sys.world in
    ap (cross_conn_in d env query s sys.world) at_scope
    ∙ foreign_test (counters sys.world i) (holds i s) n stale sys.world decided
        ((reached-Counted opts calls fits).exact i ∙ ap pos split)
    ∙ ap (λ (m : ℕ). if n == 0 then if m == 0 then stale else sys.world else decided (pos n))
        (sym split)
