-- ===== src/Identity/Separated.antt =====
-- throttle.go: the text that identifies a key.
use go_txnpure.Base.{All, nat_eq, Bytes, bytes_Eq, ◌≡◌, refl, ◌≢◌, [], ◌∷◌, ◌++◌}
use go_txnpure.Identity.{ViolationKey, identity_key}

-- No byte is NUL.
abbrev pub NoZero : Bytes → Type 0
NoZero a = All (λ c. c ≢ 0) a

split_at_zero :
    (a b c d : Bytes) → NoZero a → NoZero c → a ++ (0 ∷ b) ≡ c ++ (0 ∷ d) → (a ≡ c) × (b ≡ d)
split_at_zero [] b [] d p q h = (refl, cc)
split_at_zero [] b (y ∷ c) d p (ny, q) h = absurd (ny (cc))
split_at_zero (x ∷ a) b [] d (nx, p) q h = absurd (nx (cc))
split_at_zero (x ∷ a) b (y ∷ c) d (nx, p) (ny, q) h =
    let rest = split_at_zero a b c d p q cc in (cc, rest.1)

-- Two keys with the same text are equal, if no scope and no kind of theirs has a NUL byte.
pub identity_key-injective :
    (a b : ViolationKey)
    → NoZero a.scope
    → NoZero a.kind
    → NoZero b.scope
    → NoZero b.kind
    → identity_key a ≡ identity_key b
    → a ≡ b
unfolding identity_key
identity_key-injective a b az ak bz bk h =
    let (scopes, rest) = split_at_zero a.scope _ b.scope _ az bz h in
    let (kinds, names) = split_at_zero a.kind _ b.kind _ ak bk rest in cc
