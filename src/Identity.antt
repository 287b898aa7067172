-- ===== src/Identity.antt =====
-- The identity of a violation: `Op` of check.go, `ViolationKey` of reporter.go, `sortKeys` of
-- allowlist.go and `identityKey` of throttle.go.
pub mod Order
pub mod Separated
use go_txnpure.Base.{
  if◌then◌else◌, Eq, nat_eq, Bytes, bytes_eq, bytes_eq_iff, bytes_Eq, bytes_lt, ◌+◌, ◌≡◌, ◌↔◌, Bool,
  true, not, ◌&&◌, List, [], ◌∷◌, ◌++◌, arith,
}

pub record Op : Type 0 where
  pub kind : Bytes
  pub name : Bytes

pub record ViolationKey : Type 0 where
  pub scope : Bytes
  pub kind : Bytes
  pub name : Bytes

unfoldable pub key_eq : ViolationKey → ViolationKey → Bool
key_eq a b = bytes_eq a.scope b.scope && bytes_eq a.kind b.kind && bytes_eq a.name b.name

pub key_eq_iff : (a b : ViolationKey) → (key_eq a b ≡ true) ↔ (a ≡ b)
unfolding key_eq
key_eq_iff a b =
    ground
      (arith, bytes_eq_iff a.scope b.scope, bytes_eq_iff a.kind b.kind, bytes_eq_iff a.name b.name)

instance abbrev pub key_Eq : Eq ViolationKey
key_Eq = record { beq = key_eq; beq_iff = key_eq_iff }

abbrev pub key_of : Bytes → Op → ViolationKey
key_of scope op = record { scope = scope; kind = op.kind; name = op.name }

-- The `less` function of `sortKeys`.
unfoldable pub key_less : ViolationKey → ViolationKey → Bool
key_less a b =
    if not (bytes_eq a.scope b.scope)
    then bytes_lt a.scope b.scope
    else if not (bytes_eq a.kind b.kind)
    then bytes_lt a.kind b.kind
    else bytes_lt a.name b.name

unfoldable pub insert_key : ViolationKey → List ViolationKey → List ViolationKey
insert_key k [] = k ∷ []
insert_key k (j ∷ ks) = if key_less j k then j ∷ insert_key k ks else k ∷ j ∷ ks

-- sort.Slice with `less`. The keys of a map differ, so any sorting algorithm gives this result.
unfoldable pub sort_keys : List ViolationKey → List ViolationKey
unfolding insert_key
sort_keys [] = []
sort_keys (k ∷ ks) = insert_key k (sort_keys ks)

unfoldable pub identity_key : ViolationKey → Bytes
identity_key k = k.scope ++ (0 ∷ (k.kind ++ (0 ∷ k.name)))
