-- ===== src/Benchgate/Suffix.antt =====
-- internal/benchgate/main.go: stripProcs.
use go_txnpure.Base.{
  length, take, drop, All, nat_eq, Bytes, bytes_Eq, ℕ, zero, suc, ◌+◌, ◌≤◌, ◌≡◌, refl, ap, ◌∙◌, ◌≢◌,
  true, none, some, [], ◌∷◌, ◌++◌, arith,
}
use go_txnpure.Benchgate.Parse.{last_index_byte, all_digits, strip_at, strip_procs}

abbrev pub IsDigit : ℕ → Type 0
IsDigit c = (b'0' ≤ c) × (c ≤ b'9')

all_digits-IsDigit : (ds : Bytes) → All IsDigit ds → all_digits ds ≡ true
unfolding all_digits
all_digits-IsDigit [] h = refl
all_digits-IsDigit (d ∷ ds) h = ground (arith, all_digits-IsDigit ds)

last_index_byte-IsDigit : (ds : Bytes) → All IsDigit ds → last_index_byte ds b'-' ≡ none
unfolding last_index_byte
last_index_byte-IsDigit [] h = refl
last_index_byte-IsDigit (d ∷ ds) (h, hs) = rw (last_index_byte-IsDigit ds hs) (ground arith)

last_index_byte-suffix :
    (name ds : Bytes)
    → All IsDigit ds
    → last_index_byte (name ++ b'-' ∷ ds) b'-' ≡ some (length name)
unfolding last_index_byte
last_index_byte-suffix [] ds h = rw (last_index_byte-IsDigit ds h) refl
last_index_byte-suffix (c ∷ name) ds h = rw (last_index_byte-suffix name ds h) refl

take-length : (name rest : Bytes) → take (length name) (name ++ rest) ≡ name
take-length [] rest = refl
take-length (c ∷ name) rest = ap (λ s. c ∷ s) (take-length name rest)

drop-length :
    (n : ℕ) (name rest : Bytes) (c : ℕ) → n ≡ length name + 1 → drop n (name ++ c ∷ rest) ≡ rest
drop-length zero name rest c h = absurd (omega arith)
drop-length (suc n) [] rest c h = ap (λ k. drop k rest) (none_left h)
  where
    none_left : suc n ≡ 0 + 1 → n ≡ 0
    none_left e = omega (arith, e)
drop-length (suc n) (d ∷ name) rest c h = drop-length n name rest c (omega arith)

strip_at-suffix :
    (i : ℕ) (name ds : Bytes)
    → All IsDigit ds
    → i ≡ length name
    → name ≢ []
    → strip_at (name ++ b'-' ∷ ds) (some i) ≡ name
strip_at-suffix zero [] ds h e ne = absurd (ne refl)
strip_at-suffix zero (c ∷ name) ds h e ne = absurd (omega arith)
strip_at-suffix (suc i) name ds h e ne =
    rw (drop-length (suc i + 1) name ds b'-' (omega arith), all_digits-IsDigit ds h)
      (ap (λ k. take k (name ++ b'-' ∷ ds)) e ∙ take-length name (b'-' ∷ ds))

-- The suffix that `go test` puts behind the name of a benchmark, a dash and digits, is taken off
-- again, if the name is not empty.
pub strip_procs-suffix :
    (name ds : Bytes) → All IsDigit ds → name ≢ [] → strip_procs (name ++ b'-' ∷ ds) ≡ name
unfolding strip_procs
strip_procs-suffix name ds h ne =
    ap (strip_at (name ++ b'-' ∷ ds)) (last_index_byte-suffix name ds h)
    ∙ strip_at-suffix (length name) name ds h refl ne
