-- ===== src/System/Quiet.antt =====
-- Every transaction can be closed: no counter stays up once all connections have ended theirs.
use go_txnpure.Base.{
  length, get_elem?, set, drop, pos, max_int64, nat_eq, Bytes, bytes_Eq, count, ℕ, zero, suc, ◌≤◌,
  ◌≡◌, refl, sym, ap, ◌∙◌, Option, none, some, List, [], ◌∷◌, ◌++◌, map, arith,
}
use go_txnpure.Classify.{StatementKind}
use go_txnpure.Detector.{DetectorOption, new}
use go_txnpure.State.{Env}
use go_txnpure.System.{Call, ends}
use go_txnpure.System.Counters.{counters}
use go_txnpure.System.Histories.{reached}
use go_txnpure.System.Ledger.{
  Holding, idle, Ledger, on_holding, ledger_step, ledger_run, new_ledger, is_in_scope, holding_of,
}
use go_txnpure.System.Refines.{ledger_of-reached, reached-ledger_run}

-- The first `n` connections end their transactions.
abbrev pub end_all : Env → ℕ → List (Env × Call)
end_all env zero = []
end_all env (suc n) = (env, ends n) ∷ end_all env n

ledger_run-append :
    (kind_of : Bytes → StatementKind) (l : Ledger) (a b : List (Env × Call))
    → ledger_run kind_of l (a ++ b) ≡ ledger_run kind_of (ledger_run kind_of l a) b
ledger_run-append kind_of l [] b = refl
ledger_run-append kind_of l ((env, c) ∷ a) b =
    ledger_run-append kind_of (ledger_step kind_of l c) a b

-- One more connection ends its transaction.
count-set :
    (i n : ℕ) (hs : List Holding)
    → count (is_in_scope i) (drop n (set hs n idle)) ≤ count (is_in_scope i) (drop (suc n) hs)
count-set i zero [] = omega arith
count-set i zero (h ∷ hs) = omega arith
count-set i (suc n) [] = omega arith
count-set i (suc n) (h ∷ hs) = count-set i n hs

set-missing {ℓ} :
    {A : Type ℓ} (xs : List A) (n : ℕ) (a : A) → get_elem? xs n ≡ none → set xs n a ≡ xs
set-missing [] n a h = refl
set-missing (x ∷ xs) zero a h = cc
set-missing (x ∷ xs) (suc n) a h = ap (λ l. x ∷ l) (set-missing xs n a h)

holdings-ends :
    (kind_of : Bytes → StatementKind) (l : Ledger) (n : ℕ)
    → (ledger_step kind_of l (ends n)).holdings ≡ set l.holdings n idle
holdings-ends kind_of l n = at (get_elem? l.holdings n) refl
  where
    at :
        (o : Option Holding)
        → get_elem? l.holdings n ≡ o
        → (on_holding l n o (λ h. idle)).holdings ≡ set l.holdings n idle
    at none e = sym (set-missing l.holdings n idle e)
    at (some h) e = refl

count-end_all :
    (kind_of : Bytes → StatementKind) (l : Ledger) (env : Env) (i n : ℕ)
    → count (is_in_scope i) (ledger_run kind_of l (end_all env n)).holdings
      ≤ count (is_in_scope i) (drop n l.holdings)
count-end_all kind_of l env i zero = omega arith
count-end_all kind_of l env i (suc n) = omega (
  arith,
  count-end_all kind_of (ledger_step kind_of l (ends n)) env i n,
  ap (λ hs. count (is_in_scope i) (drop n hs)) (holdings-ends kind_of l n),
  count-set i n l.holdings,
)

drop-all {ℓ} : {A : Type ℓ} (n : ℕ) (xs : List A) → length xs ≤ n → drop n xs ≡ []
drop-all zero [] h = refl
drop-all zero (x ∷ xs) h = absurd (omega arith)
drop-all (suc n) [] h = refl
drop-all (suc n) (x ∷ xs) h = drop-all n xs (omega arith)

length-map {ℓ κ} :
    {A : Type ℓ} {B : Type κ} (f : A → B) (xs : List A) → length (map f xs) ≡ length xs
length-map f [] = refl
length-map f (x ∷ xs) = ap suc (length-map f xs)

-- Whatever has happened, once every connection has ended its transaction, the counter of every scope
-- is back at zero: after a history of calls on a new
-- detector, of fewer than 2^63 calls with those that end the transactions.
pub reached-end_all :
    (opts : List DetectorOption) (calls : List (Env × Call)) (env : Env) (n i : ℕ)
    → length (reached opts calls).sessions ≤ n
    → length (calls ++ end_all env n) ≤ max_int64
    → counters (reached opts (calls ++ end_all env n)).world i ≡ pos 0
reached-end_all opts calls env n i all_of_them h =
    (reached-ledger_run opts (calls ++ end_all env n) i h).1
    ∙ ap (λ l. pos (count (is_in_scope i) l.holdings))
        (ledger_run-append (new opts).0.classify new_ledger calls (end_all env n))
    ∙ ap pos (none_left (count-end_all (new opts).0.classify l env i n))
  where
    l : Ledger
    l = ledger_run (new opts).0.classify new_ledger calls

    few : length l.holdings ≤ n
    few = omega (
      arith,
      ap (λ m. length m.holdings) (ledger_of-reached opts calls),
      length-map holding_of (reached opts calls).sessions,
    )

    none_left : {m : ℕ} → m ≤ count (is_in_scope i) (drop n l.holdings) → m ≡ 0
    none_left {m} le = omega (arith, le, ap (count (is_in_scope i)) (drop-all n l.holdings few))
