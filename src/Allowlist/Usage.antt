-- ===== src/Allowlist/Usage.antt =====
-- allowlist.go: which entries a run of decisions uses.
use go_txnpure.Base.{
  or-false, or-true, or_assoc, if◌then◌else◌, any, ℤ, nat_eq, Bytes, bytes_Eq, lookup, insert,
  lookup-insert, ◌≡◌, refl, sym, ap, ◌∙◌, Bool, true, false, ◌&&◌, ◌||◌, Option, none, some, List,
  [], ◌∷◌,
}
use mathlib.Core.Path.{ap₂}
use go_txnpure.Allow.Counts.{covers_calls}
use go_txnpure.Allowlist.{Decision, any_scope, at_key, or_else, find_entry, decide_entry, decide}
use go_txnpure.Identity.{Op, ViolationKey, key_Eq, key_eq, key_eq_iff, key_of}
use go_txnpure.State.{Allowlist, AllowlistEntry}

-- A call that the list is asked about: its scope, its operation and its number.
pub record Asked : Type 0 where
  pub scope : Bytes
  pub op : Op
  pub call : ℤ

abbrev pub decide_all : Allowlist → List Asked → Allowlist
decide_all a [] = a
decide_all a (q ∷ qs) = decide_all (decide a q.scope q.op q.call).1 qs

abbrev pub counts_of : Option AllowlistEntry → Option (List ℤ)
counts_of none = none
counts_of (some e) = some e.counts

abbrev pub tagged : ViolationKey → Option (List ℤ) → Option (ViolationKey × List ℤ)
tagged key none = none
tagged key (some counts) = some (key, counts)

-- The counts of the entry for the exact scope, or else of the one for any scope, with its key.
abbrev pub resolved : Allowlist → Bytes → Op → Option (ViolationKey × List ℤ)
resolved a scope op =
    or_else (tagged (key_of scope op) (counts_of (lookup (key_of scope op) a.entries)))
      (tagged (key_of any_scope op) (counts_of (lookup (key_of any_scope op) a.entries)))

-- The call resolves to this entry, which covers it.
abbrev pub uses_entry : ViolationKey → ℤ → Option (ViolationKey × List ℤ) → Bool
uses_entry key k none = false
uses_entry key k (some (key', counts)) = key_eq key' key && covers_calls counts k

abbrev pub uses : Allowlist → ViolationKey → Asked → Bool
uses a key q = uses_entry key q.call (resolved a q.scope q.op)

abbrev pub marked : Bool → Option AllowlistEntry → Option AllowlistEntry
marked b none = none
marked b (some e) = some (record e { used = e.used || b })

marked-false : (o : Option AllowlistEntry) → marked false o ≡ o
marked-false none = refl
marked-false (some e) = ap (λ (u : Bool). some (record e { used = u })) (or-false e.used)

marked-marked : (b c : Bool) (o : Option AllowlistEntry) → marked c (marked b o) ≡ marked (b || c) o
marked-marked b c none = refl
marked-marked b c (some e) = ap (λ (u : Bool). some (record e { used = u })) (or_assoc e.used b c)

counts_of-marked : (b : Bool) (o : Option AllowlistEntry) → counts_of (marked b o) ≡ counts_of o
counts_of-marked b none = refl
counts_of-marked b (some e) = refl

-- What `find_entry` finds is in the list, and is what the call resolves to.
Found : Allowlist → Bytes → Op → Option (ViolationKey × AllowlistEntry) → Type 0
Found a scope op none = resolved a scope op ≡ none
Found a scope op (some (key, e)) =
    (resolved a scope op ≡ some (key, e.counts)) × (lookup key a.entries ≡ some e)

find_entry-Found :
    (a : Allowlist) (scope : Bytes) (op : Op) → Found a scope op (find_entry a scope op)
unfolding find_entry Found
find_entry-Found a scope op =
    at (lookup (key_of scope op) a.entries) (lookup (key_of any_scope op) a.entries) refl refl
  where
    at :
        (x y : Option AllowlistEntry)
        → lookup (key_of scope op) a.entries ≡ x
        → lookup (key_of any_scope op) a.entries ≡ y
        → Found a scope op (or_else (at_key (key_of scope op) x) (at_key (key_of any_scope op) y))
    at (some e) y p q = (rw p refl, p)
    at none (some e) p q = (rw (p, q) refl, q)
    at none none p q = rw (p, q) refl

-- One decision.
decide-marked :
    (a : Allowlist) (q : Asked) (key : ViolationKey)
    → lookup key (decide a q.scope q.op q.call).1.entries
      ≡ marked (uses a key q) (lookup key a.entries)
unfolding decide Found
decide-marked a q key = at (find_entry a q.scope q.op) (find_entry-Found a q.scope q.op)
  where
    at :
        (o : Option (ViolationKey × AllowlistEntry))
        → Found a q.scope q.op o
        → lookup key (decide_entry a q.call o).1.entries
          ≡ marked (uses a key q) (lookup key a.entries)
    at none found = rw found (sym (marked-false (lookup key a.entries)))
    at (some (key', e)) (same, there) =
        rw same (covering (covers_calls e.counts q.call) (key_eq key' key) refl)
      where
        used : AllowlistEntry
        used = record e { used = true }

        after : Bool → Option Decision × Allowlist
        after b =
            if b
            then (
              some (record { covered = true; counts = e.counts; reason = e.reason }),
              record { entries = insert key' used a.entries },
            )
            else (some (record { covered = false; counts = e.counts; reason = e.reason }), a)

        here : key_eq key' key ≡ true → some used ≡ marked true (lookup key a.entries)
        here h =
            ap (λ (u : Bool). some (record e { used = u })) (sym (or-true e.used))
            ∙ ap (marked true)
                (sym there ∙ ap (λ k. lookup k a.entries) ((key_eq_iff key' key).0 h))

        covering :
            (b hit : Bool)
            → key_eq key' key ≡ hit
            → lookup key (after b).1.entries ≡ marked (hit && b) (lookup key a.entries)
        covering false true h = sym (marked-false (lookup key a.entries))
        covering false false h = sym (marked-false (lookup key a.entries))
        covering true true h = lookup-insert key' key used a.entries ∙ rw h (here h)
        covering true false h =
            lookup-insert key' key used a.entries ∙ rw h (sym (marked-false (lookup key a.entries)))

-- A decision changes no counts, so calls resolve as before.
uses-decide :
    (a : Allowlist) (q : Asked) (key : ViolationKey) (p : Asked)
    → uses (decide a q.scope q.op q.call).1 key p ≡ uses a key p
uses-decide a q key p = rw (same (key_of p.scope p.op), same (key_of any_scope p.op)) refl
  where
    same :
        (k : ViolationKey)
        → counts_of (lookup k (decide a q.scope q.op q.call).1.entries)
          ≡ counts_of (lookup k a.entries)
    same k = rw (decide-marked a q k) (counts_of-marked (uses a k q) (lookup k a.entries))

any-uses-decide :
    (a : Allowlist) (q : Asked) (key : ViolationKey) (qs : List Asked)
    → any (uses (decide a q.scope q.op q.call).1 key) qs ≡ any (uses a key) qs
any-uses-decide a q key [] = refl
any-uses-decide a q key (p ∷ qs) = rw (uses-decide a q key p, any-uses-decide a q key qs) refl

-- After a run of decisions the entries of the allowlist are the same, and those are used that were
-- used before or that one of the calls resolves to, by its exact scope or else by the entry for any scope, and
-- that covers this call.
pub decide_all-marked :
    (a : Allowlist) (qs : List Asked) (key : ViolationKey)
    → lookup key (decide_all a qs).entries ≡ marked (any (uses a key) qs) (lookup key a.entries)
decide_all-marked a [] key = sym (marked-false (lookup key a.entries))
decide_all-marked a (q ∷ qs) key =
    let a' = (decide a q.scope q.op q.call).1 in
    decide_all-marked a' qs key
    ∙ ap₂ marked (any-uses-decide a q key qs) (decide-marked a q key)
    ∙ marked-marked (uses a key q) (any (uses a key) qs) (lookup key a.entries)
