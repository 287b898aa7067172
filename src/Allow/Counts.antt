-- ===== src/Allow/Counts.antt =====
-- allow.go: exact-call declarations.
use go_txnpure.Base.{
  if◌then◌else◌, ℤ, pos, leb_ℤ, eq_ℤ, nat_eq, bytes_Eq, Bool, true, false, not, List, [], ◌∷◌,
}

-- The largest count, and 0 if none is positive.
unfoldable pub max_from : ℤ → List ℤ → ℤ
max_from m [] = m
max_from m (c ∷ counts) = max_from (if not (leb_ℤ c m) then c else m) counts

unfoldable pub max_count : List ℤ → ℤ
unfolding max_from
max_count counts = max_from (pos 0) counts

unfoldable pub contains_count : List ℤ → ℤ → Bool
contains_count [] n = false
contains_count (c ∷ counts) n = if eq_ℤ c n then true else contains_count counts n

-- No declared count covers every call.
unfoldable pub covers_calls : List ℤ → ℤ → Bool
unfolding max_count
covers_calls [] k = true
covers_calls (c ∷ counts) k = leb_ℤ k (max_count (c ∷ counts))
