-- ===== src/Allow/Coverage.antt =====
-- What a declaration of counts covers and when its total falls short, in terms of membership.
use go_txnpure.Base.{
  bool_laws, Bool-cases, any, ℤ, pos, leb_ℤ, eq_ℤ, nat_eq, bytes_Eq, ℕ, suc, ◌≤◌, ◌≡◌, refl, ◌∙◌,
  inl, inr, Bool, true, false, ◌||◌, List, [], ◌∷◌, arith,
}
use go_txnpure.Allow.Counts.{max_from, max_count, contains_count, covers_calls}
use go_txnpure.Allow.{falls_short}

-- Some declared count reaches the call.
abbrev pub reaches : List ℤ → ℤ → Bool
reaches counts k = any (leb_ℤ k) counts

max_from-any :
    (m : ℤ) (counts : List ℤ) (k : ℤ)
    → leb_ℤ k (max_from m counts) ≡ (leb_ℤ k m || any (leb_ℤ k) counts)
unfolding max_from
max_from-any m [] k = ground arith
max_from-any m (c ∷ counts) k = elim (Bool-cases (leb_ℤ c m)) [
  | inl small ↦ rw (small, max_from-any m counts k) (ground arith)
  | inr large ↦ rw (large, max_from-any c counts k) (ground arith)
]

max_count-any :
    (counts : List ℤ) (n : ℕ)
    → leb_ℤ (pos (suc n)) (max_count counts) ≡ any (leb_ℤ (pos (suc n))) counts
unfolding max_count
max_count-any counts n = max_from-any (pos 0) counts (pos (suc n)) ∙ ground arith

abbrev pub is_nil {ℓ} : {A : Type ℓ} → List A → Bool
is_nil [] = true
is_nil (x ∷ xs) = false

-- The k-th call, counted from 1, is covered exactly if no count is declared or some declared count
-- is at least k; so counts below 1 cover nothing.
pub covers_calls-reaches :
    (counts : List ℤ) (k : ℕ)
    → covers_calls counts (pos (suc k)) ≡ (is_nil counts || reaches counts (pos (suc k)))
unfolding covers_calls
covers_calls-reaches [] k = refl
covers_calls-reaches (c ∷ counts) k = max_count-any (c ∷ counts) k

contains-reaches :
    (counts : List ℤ) (n k : ℕ)
    → k ≤ n
    → contains_count counts (pos n) ≡ true
    → reaches counts (pos k) ≡ true
unfolding contains_count
contains-reaches [] n k le h = cc
contains-reaches (c ∷ counts) n k le h = elim (Bool-cases (eq_ℤ c (pos n))) [
  | inl hit ↦ ground arith
  | inr miss ↦ rw (contains-reaches counts n k le (rw miss at h)) (or-true (leb_ℤ (pos k) c))
]
  where
    or-true : (b : Bool) → (b || true) ≡ true
    or-true true = refl
    or-true false = refl

reaches-le :
    (counts : List ℤ) (n k : ℕ)
    → k ≤ n
    → reaches counts (pos n) ≡ true
    → reaches counts (pos k) ≡ true
reaches-le [] n k le h = cc
reaches-le (c ∷ counts) n k le h = ground (arith, reaches-le counts n k le)

-- A scope whose total is one of the declared counts has nothing to say: every call up to the total
-- was covered, and the end reports no shortfall.
pub declared_total :
    (counts : List ℤ) (n k : ℕ)
    → contains_count counts (pos n) ≡ true
    → suc k ≤ n
    → (covers_calls counts (pos (suc k)) ≡ true) × (falls_short counts (pos n) ≡ false)
unfolding falls_short
declared_total counts n k h le = (
  covers_calls-reaches counts k ∙ simp (contains-reaches counts n (suc k) le h, bool_laws),
  simp (h, bool_laws),
)
