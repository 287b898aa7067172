-- ===== src/Benchgate/Highest.antt =====
-- internal/benchgate/main.go: maxOf.
use go_txnpure.Base.{
  Bool-cases, All, nat_eq, bytes_Eq, ◌≡◌, refl, sym, ◌∙◌, ◌⊎◌, inl, inr, Bool, true, false, List,
  [], ◌∷◌,
}
use go_txnpure.Benchgate.Compare.{highest_from, max_of}
use go_txnpure.Benchgate.Float.{Float}
use mathlib.Core.List.{Memᴰ}
use mathlib.Core.Path.{subst}

module _ {F : Type 0} (fl : Float F) where
  -- No sample is above `m`.
  abbrev pub Bounds : F → List F → Type 0
  Bounds m v = All (λ x. fl.lt m x ≡ false) v

  abbrev pub Transitive : Type 0
  Transitive = (x y z : F) → fl.lt x y ≡ true → fl.lt y z ≡ true → fl.lt x z ≡ true

  -- What is not above the start is not above the result.
  keeps_above :
      (m x : F) (v : List F)
      → Transitive
      → fl.lt m x ≡ false
      → fl.lt (highest_from fl m v) x ≡ false
  unfolding highest_from
  keeps_above m x [] trans h = h
  keeps_above m x (y ∷ v) trans h = elim (Bool-cases (fl.lt m y)) [
    | inl above ↦ rw above (keeps_above y x v trans (not_above above (fl.lt y x) refl))
    | inr below ↦ rw below (keeps_above m x v trans h)
  ]
    where
      not_above : fl.lt m y ≡ true → (b : Bool) → fl.lt y x ≡ b → b ≡ false
      not_above above true e = sym (trans m y x above e) ∙ h
      not_above above false e = refl

  highest_from_above :
      (m y : F) (v : List F) → fl.lt m y ≡ true → highest_from fl m (y ∷ v) ≡ highest_from fl y v
  unfolding highest_from
  highest_from_above m y v above = rw above refl

  highest_from_kept :
      (m y : F) (v : List F) → fl.lt m y ≡ false → highest_from fl m (y ∷ v) ≡ highest_from fl m v
  unfolding highest_from
  highest_from_kept m y v below = rw below refl

  highest_from-Bounds :
      (m : F) (v : List F)
      → Transitive
      → ((x : F) → fl.lt x x ≡ false)
      → Bounds (highest_from fl m v) v
  highest_from-Bounds m [] trans irrefl = tt
  highest_from-Bounds m (y ∷ v) trans irrefl = elim (Bool-cases (fl.lt m y)) [
    | inl above ↦
        subst (λ n. Bounds n (y ∷ v)) (sym (highest_from_above m y v above))
          (keeps_above y y v trans (irrefl y), highest_from-Bounds y v trans irrefl)
    | inr below ↦
        subst (λ n. Bounds n (y ∷ v)) (sym (highest_from_kept m y v below))
          (keeps_above m y v trans below, highest_from-Bounds m v trans irrefl)
  ]

  highest_from-Member :
      (m : F) (v : List F) → (highest_from fl m v ≡ m) ⊎ Memᴰ (highest_from fl m v) v
  unfolding highest_from
  highest_from-Member m [] = inl refl
  highest_from-Member m (y ∷ v) = elim (Bool-cases (fl.lt m y)) [
    | inl above ↦ rw above (from_y (highest_from-Member y v))
    | inr below ↦ rw below (from_m (highest_from-Member m v))
  ]
    where
      from_y :
          (highest_from fl y v ≡ y) ⊎ Memᴰ (highest_from fl y v) v
          → (highest_from fl y v ≡ m) ⊎ Memᴰ (highest_from fl y v) (y ∷ v)
      from_y (inl e) = inr (Memᴰ.head e)
      from_y (inr later) = inr (Memᴰ.tail later)

      from_m :
          (highest_from fl m v ≡ m) ⊎ Memᴰ (highest_from fl m v) v
          → (highest_from fl m v ≡ m) ⊎ Memᴰ (highest_from fl m v) (y ∷ v)
      from_m (inl e) = inl e
      from_m (inr later) = inr (Memᴰ.tail later)

  -- The maximum of the samples is 0 or one of them, and no sample is above it, nor is 0, if the
  -- comparison is irreflexive and transitive, as that of floating-point numbers is.
  pub max_of-Bounds :
      (v : List F)
      → Transitive
      → ((x : F) → fl.lt x x ≡ false)
      → ((max_of fl v ≡ fl.literal 0) ⊎ Memᴰ (max_of fl v) v)
        × (fl.lt (max_of fl v) (fl.literal 0) ≡ false)
        × Bounds (max_of fl v) v
  unfolding max_of
  max_of-Bounds v trans irrefl = (
    highest_from-Member (fl.literal 0) v,
    keeps_above (fl.literal 0) (fl.literal 0) v trans (irrefl (fl.literal 0)),
    highest_from-Bounds (fl.literal 0) v trans irrefl,
  )
