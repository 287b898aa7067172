-- ===== src/Allowlist.antt =====
-- allowlist.go: the central list, keyed by scope and operation.
pub mod Usage
use go_txnpure.Base.{
  if◌then◌else◌, ℤ, nat_eq, Bytes, codes, bytes_Eq, lookup, insert, Bool, true, false, not, Option,
  none, some, List, [], ◌∷◌,
}
use go_txnpure.Allow.Counts.{covers_calls}
use go_txnpure.Identity.{Op, ViolationKey, key_Eq, key_of, sort_keys}
use go_txnpure.State.{Allowlist, AllowlistEntry}

abbrev pub any_scope : Bytes
any_scope = codes "*"

unfoldable pub new_allowlist : Allowlist
new_allowlist = record { entries = [] }

unfoldable pub add : Allowlist → Bytes → Op → Bytes → List ℤ → Allowlist
add a scope op reason exact_calls = record {
  entries =
      insert (key_of scope op) (record { reason = reason; counts = exact_calls; used = false })
        a.entries;
}

-- What `decide` returns when an entry matched.
pub record Decision : Type 0 where
  pub covered : Bool
  pub counts : List ℤ
  pub reason : Bytes

abbrev pub at_key : ViolationKey → Option AllowlistEntry → Option (ViolationKey × AllowlistEntry)
at_key key none = none
at_key key (some e) = some (key, e)

abbrev pub or_else {ℓ} : {A : Type ℓ} → Option A → Option A → Option A
or_else none b = b
or_else (some a) b = some a

-- The entry of the exact scope, else the wildcard's.
unfoldable pub find_entry : Allowlist → Bytes → Op → Option (ViolationKey × AllowlistEntry)
find_entry a scope op =
    or_else (at_key (key_of scope op) (lookup (key_of scope op) a.entries))
      (at_key (key_of any_scope op) (lookup (key_of any_scope op) a.entries))

abbrev pub decide_entry :
    Allowlist → ℤ → Option (ViolationKey × AllowlistEntry) → Option Decision × Allowlist
decide_entry a k none = (none, a)
decide_entry a k (some (key, e)) =
    if covers_calls e.counts k
    then (
      some (record { covered = true; counts = e.counts; reason = e.reason }),
      record { entries = insert key (record e { used = true }) a.entries },
    )
    else (some (record { covered = false; counts = e.counts; reason = e.reason }), a)

unfoldable pub decide : Allowlist → Bytes → Op → ℤ → Option Decision × Allowlist
unfolding find_entry covers_calls
decide a scope op k = decide_entry a k (find_entry a scope op)

unfoldable pub unused_keys : List (ViolationKey × AllowlistEntry) → List ViolationKey
unused_keys [] = []
unused_keys ((k, e) ∷ m) = if not e.used then k ∷ unused_keys m else unused_keys m

unfoldable pub unused_entries : Allowlist → List ViolationKey
unfolding unused_keys
unused_entries a = sort_keys (unused_keys a.entries)
