-- ===== src/Baseline.antt =====
-- baseline.go: the ratchet list. A nil baseline is `none`.
pub mod Files
pub mod Marks
pub mod RoundTrip
use go_txnpure.Base.{
  if◌then◌else◌, nat_eq, Bytes, bytes_Eq, lookup, insert, Bool, true, false, not, Option, none,
  some, List, [], ◌∷◌, map,
}
use go_txnpure.Identity.{Op, ViolationKey, key_Eq, key_of, sort_keys}
use go_txnpure.Report.{Violation, violation_key}

-- key -> suppressed a violation
pub record Baseline : Type 0 where
  pub entries : List (ViolationKey × Bool)

unfoldable pub new_baseline : Baseline
new_baseline = record { entries = [] }

unfoldable pub mark_false : List ViolationKey → Baseline → Baseline
mark_false [] b = b
mark_false (k ∷ ks) b = mark_false ks (record { entries = insert k false b.entries })

unfoldable pub baseline_from_violations : List Violation → Baseline
unfolding mark_false new_baseline
baseline_from_violations vs = mark_false (map violation_key vs) new_baseline

-- What LoadBaseline builds from the entries of a parsed file.
unfoldable pub baseline_from_entries : List ViolationKey → Baseline
unfolding mark_false new_baseline
baseline_from_entries ks = mark_false ks new_baseline

abbrev keep_or_add : ViolationKey → Baseline → Option Bool → Baseline
keep_or_add k b none = record { entries = insert k false b.entries }
keep_or_add k b (some used) = b

unfoldable pub add : Baseline → Bytes → Op → Baseline
add b scope op = keep_or_add (key_of scope op) b (lookup (key_of scope op) b.entries)

unfoldable pub entry_keys : List (ViolationKey × Bool) → List ViolationKey
entry_keys [] = []
entry_keys ((k, used) ∷ m) = k ∷ entry_keys m

unfoldable pub entries_of : Baseline → List ViolationKey
unfolding entry_keys
entries_of b = sort_keys (entry_keys b.entries)

abbrev pub mark_used : ViolationKey → Baseline → Option Bool → Bool × Baseline
mark_used k b none = (false, b)
mark_used k b (some used) = (true, record { entries = insert k true b.entries })

unfoldable pub covers : Baseline → ViolationKey → Bool × Baseline
covers b k = mark_used k b (lookup k b.entries)

unfoldable pub unused_keys : List (ViolationKey × Bool) → List ViolationKey
unused_keys [] = []
unused_keys ((k, used) ∷ m) = if not used then k ∷ unused_keys m else unused_keys m

unfoldable pub unused_entries : Baseline → List ViolationKey
unfolding unused_keys
unused_entries b = sort_keys (unused_keys b.entries)
