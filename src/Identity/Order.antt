-- ===== src/Identity/Order.antt =====
-- `sortKeys`: `less` is a strict total order, so the sorted list does not depend on the order in
-- which a map yields its keys.
use go_txnpure.Base.{
  if◌then◌else◌, Bool-cases, nat_eq, Bytes, bytes_eq_iff, bytes_Eq, bytes_lt, ◌≡◌, refl, ◌∙◌, inl,
  inr, Bool, true, false, List, [], ◌∷◌, arith,
}
use mathlib.Core.List.Perm
use mathlib.Core.List.{Perm, Permᴰ}
use mathlib.Core.Logic.{∥∥₁_elim}
use mathlib.Core.Path.{ap₂}
use go_txnpure.Identity.{ViolationKey, key_less, insert_key, sort_keys}

bytes_lt_asym : (a b : Bytes) → bytes_lt a b ≡ true → bytes_lt b a ≡ false
unfolding bytes_lt
bytes_lt_asym a [] h = cc
bytes_lt_asym [] (y ∷ b) h = refl
bytes_lt_asym (x ∷ a) (y ∷ b) h = ground (arith, bytes_lt_asym a b)

bytes_lt_total : (a b : Bytes) → bytes_lt a b ≡ false → bytes_lt b a ≡ false → a ≡ b
unfolding bytes_lt
bytes_lt_total [] [] h k = refl
bytes_lt_total [] (y ∷ b) h k = cc
bytes_lt_total (x ∷ a) [] h k = cc
bytes_lt_total (x ∷ a) (y ∷ b) h k = ground (arith, bytes_lt_total a b)

-- From j ≥ b and j < a follows b < a.
bytes_lt_below : (j b a : Bytes) → bytes_lt j b ≡ false → bytes_lt j a ≡ true → bytes_lt b a ≡ true
unfolding bytes_lt
bytes_lt_below j b [] h k = cc
bytes_lt_below [] [] (x ∷ a) h k = refl
bytes_lt_below [] (y ∷ b) (x ∷ a) h k = cc
bytes_lt_below (z ∷ j) [] (x ∷ a) h k = refl
bytes_lt_below (z ∷ j) (y ∷ b) (x ∷ a) h k = ground (arith, bytes_lt_below j b a)

key_less_asym : (a b : ViolationKey) → key_less a b ≡ true → key_less b a ≡ false
unfolding key_less
key_less_asym a b h = ground (
  arith,
  bytes_eq_iff a.scope b.scope,
  bytes_eq_iff b.scope a.scope,
  bytes_eq_iff a.kind b.kind,
  bytes_eq_iff b.kind a.kind,
  bytes_lt_asym a.scope b.scope,
  bytes_lt_asym a.kind b.kind,
  bytes_lt_asym a.name b.name,
)

key_less_total : (a b : ViolationKey) → key_less a b ≡ false → key_less b a ≡ false → a ≡ b
unfolding key_less
key_less_total a b h k = ground (
  arith,
  bytes_eq_iff a.scope b.scope,
  bytes_eq_iff b.scope a.scope,
  bytes_eq_iff a.kind b.kind,
  bytes_eq_iff b.kind a.kind,
  bytes_lt_total a.scope b.scope,
  bytes_lt_total a.kind b.kind,
  bytes_lt_total a.name b.name,
)

key_less_below :
    (j b a : ViolationKey) → key_less j b ≡ false → key_less j a ≡ true → key_less b a ≡ true
unfolding key_less
key_less_below j b a h k = ground (
  arith,
  bytes_eq_iff j.scope b.scope,
  bytes_eq_iff j.scope a.scope,
  bytes_eq_iff b.scope a.scope,
  bytes_eq_iff j.kind b.kind,
  bytes_eq_iff j.kind a.kind,
  bytes_eq_iff b.kind a.kind,
  bytes_lt_total j.scope b.scope,
  bytes_lt_total b.scope j.scope,
  bytes_lt_total j.kind b.kind,
  bytes_lt_total b.kind j.kind,
  bytes_lt_below j.scope b.scope a.scope,
  bytes_lt_below j.kind b.kind a.kind,
  bytes_lt_below j.name b.name a.name,
)

insert_key_comm :
    (a b : ViolationKey) (l : List ViolationKey)
    → insert_key a (insert_key b l) ≡ insert_key b (insert_key a l)
unfolding insert_key
insert_key_comm a b [] = ground (arith, key_less_asym a b, key_less_total a b)
insert_key_comm a b (j ∷ l) = ground (
  arith,
  key_less_asym a b,
  key_less_asym b a,
  key_less_total a b,
  key_less_below j b a,
  key_less_below j a b,
  insert_key_comm a b l,
)

sort_keys-Permᴰ : {xs ys : List ViolationKey} → Permᴰ xs ys → sort_keys xs ≡ sort_keys ys
unfolding sort_keys
sort_keys-Permᴰ Permᴰ.nil = refl
sort_keys-Permᴰ (Permᴰ.cons e p) = ap₂ insert_key e (sort_keys-Permᴰ p)
sort_keys-Permᴰ (Permᴰ.swap {a = a} {b = b} {l = l} e f) =
    ap₂ (λ x y. insert_key x (insert_key y (sort_keys l))) e f ∙ insert_key_comm _ _ (sort_keys l)
sort_keys-Permᴰ (Permᴰ.trans p q) = sort_keys-Permᴰ p ∙ sort_keys-Permᴰ q

Keys-set : IsSet (List ViolationKey)
Keys-set = hlevel

-- No key is less than the one in front of it.
abbrev pub Ordered : List ViolationKey → Type 0
Ordered [] = Unit {0}
Ordered (a ∷ []) = Unit {0}
Ordered (a ∷ b ∷ keys) = (key_less b a ≡ false) × Ordered (b ∷ keys)

insert_key-Ordered :
    (k : ViolationKey) (keys : List ViolationKey) → Ordered keys → Ordered (insert_key k keys)
unfolding insert_key
insert_key-Ordered k [] h = tt
insert_key-Ordered k (a ∷ []) h = elim (Bool-cases (key_less a k)) [
  | inl less ↦ rw less (key_less_asym a k less, tt)
  | inr not_less ↦ rw not_less (not_less, tt)
]
insert_key-Ordered k (a ∷ b ∷ keys) h = elim (Bool-cases (key_less a k)) [
  | inl less ↦ rw less (front less (key_less b k) refl (insert_key-Ordered k (b ∷ keys) h.1))
  | inr not_less ↦ rw not_less (not_less, h)
]
  where
    front :
        key_less a k ≡ true
        → (t : Bool) → key_less b k ≡ t
        → Ordered (if t then b ∷ insert_key k keys else k ∷ b ∷ keys)
        → Ordered (a ∷ (if key_less b k then b ∷ insert_key k keys else k ∷ b ∷ keys))
    front less true e o = rw e (h.0, o)
    front less false e o = rw e (key_less_asym a k less, o)

insert_key-perm :
    (k : ViolationKey) (keys : List ViolationKey) → Perm (insert_key k keys) (k ∷ keys)
unfolding insert_key
insert_key-perm k [] = Perm.refl (k ∷ [])
insert_key-perm k (a ∷ keys) = elim (Bool-cases (key_less a k)) [
  | inl less ↦ rw less (Perm.trans (Perm.cons a (insert_key-perm k keys)) (Perm.swap k a keys))
  | inr not_less ↦ rw not_less (Perm.refl (k ∷ a ∷ keys))
]

sort_keys-Ordered : (keys : List ViolationKey) → Ordered (sort_keys keys)
unfolding sort_keys
sort_keys-Ordered [] = tt
sort_keys-Ordered (k ∷ keys) = insert_key-Ordered k (sort_keys keys) (sort_keys-Ordered keys)

pub sort_keys-perm_self : (keys : List ViolationKey) → Perm (sort_keys keys) keys
unfolding sort_keys
sort_keys-perm_self [] = Perm.refl []
sort_keys-perm_self (k ∷ keys) =
    Perm.trans (insert_key-perm k (sort_keys keys)) (Perm.cons k (sort_keys-perm_self keys))

-- Whatever the order in which a map yields its keys, the sorted list is the same: it is a
-- permutation of the keys in which no key is less than the one in front of it, and equal for any two
-- lists that are permutations of one another.
pub sort_keys-perm :
    (xs ys : List ViolationKey)
    → Perm xs ys
    → Ordered (sort_keys xs) × Perm (sort_keys xs) ys × (sort_keys xs ≡ sort_keys ys)
sort_keys-perm xs ys p = (
  sort_keys-Ordered xs,
  Perm.trans (sort_keys-perm_self xs) p,
  ∥∥₁_elim p (Keys-set (sort_keys xs) (sort_keys ys)) sort_keys-Permᴰ,
)
