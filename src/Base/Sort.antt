-- ===== src/Base/Sort.antt =====
-- Sorting by an order, and counting, which does not see the order of a list.
use Prim.Native.Nat.{ℕ, ◌+◌}
use go_txnpure.Base.Tests.{if◌then◌else◌, Bool-cases}
use mathlib.Core.Bool.{Bool}
use mathlib.Core.List.{List, [], ◌∷◌}
use mathlib.Core.Logic.{inl, inr}
use mathlib.Core.Path.{◌≡◌, refl}
use native.Mathlib.Omega.{arith}

module _ {ℓ} {A : Type ℓ} (less : A → A → Bool) where
  unfoldable pub insert_by : A → List A → List A
  insert_by a [] = a ∷ []
  insert_by a (b ∷ l) = if less b a then b ∷ insert_by a l else a ∷ b ∷ l

  unfoldable pub sort_by : List A → List A
  unfolding insert_by
  sort_by [] = []
  sort_by (a ∷ l) = insert_by a (sort_by l)

abbrev pub count {ℓ} : {A : Type ℓ} → (A → Bool) → List A → ℕ
count p [] = 0
count p (a ∷ l) = (if p a then 1 else 0) + count p l

module _ {ℓ} {A : Type ℓ} (less : A → A → Bool) (p : A → Bool) where
  count-insert_by :
      (a : A) (l : List A) → count p (insert_by less a l) ≡ (if p a then 1 else 0) + count p l
  unfolding insert_by
  count-insert_by a [] = refl
  count-insert_by a (b ∷ l) = elim (Bool-cases (less b a)) [
    | inl before ↦ rw before (omega (arith, count-insert_by a l))
    | inr behind ↦ rw behind refl
  ]

  pub count-sort_by : (l : List A) → count p (sort_by less l) ≡ count p l
  unfolding sort_by
  count-sort_by [] = refl
  count-sort_by (a ∷ l) = omega (arith, count-insert_by a (sort_by less l), count-sort_by l)
