-- ===== src/Baseline/Marks.antt =====
-- baseline.go: the map that a list of keys gives.
use go_txnpure.Base.{
  if◌then◌else◌, Bool-cases, any, All, nat_eq, bytes_Eq, lookup, insert, lookup-insert, ◌≡◌, refl,
  sym, ap, ◌∙◌, inl, inr, Bool, true, false, ◌||◌, none, some, List, [], ◌∷◌, ◌++◌, arith,
}
use mathlib.Core.List.{append_assoc, append-nil}
use go_txnpure.Baseline.{
  Baseline, new_baseline, mark_false, baseline_from_entries, entry_keys, unused_keys,
}
use go_txnpure.Identity.{ViolationKey, key_eq, key_Eq, key_eq_iff, insert_key, sort_keys, key_less}
use go_txnpure.Reporter.Filter.{is_some}

abbrev pub has : ViolationKey → List ViolationKey → Bool
has k ks = any (λ j. key_eq j k) ks

-- No key comes twice.
abbrev pub Distinct : List ViolationKey → Type 0
Distinct [] = Unit
Distinct (k ∷ ks) = (has k ks ≡ false) × Distinct ks

lookup-mark_false :
    (k : ViolationKey) (ks : List ViolationKey) (b : Baseline)
    → lookup k (mark_false ks b).entries ≡ (if has k ks then some false else lookup k b.entries)
unfolding mark_false
lookup-mark_false k [] b = refl
lookup-mark_false k (j ∷ ks) b = lookup-mark_false k ks _ ∙ at (key_eq j k) refl (has k ks)
  where
    at :
        (t : Bool)
        → key_eq j k ≡ t
        → (later : Bool)
        → (if later then some false else lookup k (insert j false b.entries))
          ≡ (if t || later then some false else lookup k b.entries)
    at true e true = refl
    at true e false = rw (lookup-insert j k false b.entries, e) refl
    at false e true = refl
    at false e false = rw (lookup-insert j k false b.entries, e) refl

pub has-entry_keys :
    (k : ViolationKey) (m : List (ViolationKey × Bool))
    → has k (entry_keys m) ≡ is_some (lookup k m)
unfolding entry_keys lookup
has-entry_keys k [] = refl
has-entry_keys k ((j, used) ∷ m) = elim (Bool-cases (key_eq j k)) [
  | inl same ↦ rw same refl
  | inr other ↦ rw other (has-entry_keys k m)
]

has-insert_key :
    (k j : ViolationKey) (ks : List ViolationKey)
    → has k (insert_key j ks) ≡ (key_eq j k || has k ks)
unfolding insert_key
has-insert_key k j [] = refl
has-insert_key k j (i ∷ ks) = ground (arith, has-insert_key k j ks)

pub has-sort_keys : (k : ViolationKey) (ks : List ViolationKey) → has k (sort_keys ks) ≡ has k ks
unfolding sort_keys
has-sort_keys k [] = refl
has-sort_keys k (j ∷ ks) =
    has-insert_key k j (sort_keys ks) ∙ ap (λ t. key_eq j k || t) (has-sort_keys k ks)

key_eq_sym : (j k : ViolationKey) → key_eq j k ≡ false → key_eq k j ≡ false
key_eq_sym j k h = grind (arith, key_eq_iff j k, key_eq_iff k j)

insert_key-Distinct :
    (k : ViolationKey) (ks : List ViolationKey)
    → has k ks ≡ false
    → Distinct ks
    → Distinct (insert_key k ks)
unfolding insert_key
insert_key-Distinct k [] h d = (refl, tt)
insert_key-Distinct k (j ∷ ks) h d = elim (Bool-cases (key_less j k)) [
  | inl less ↦ rw less (
      let (apart, rest) = or_is_false h in
      (
        has-insert_key j k ks ∙ both_false (key_eq_sym j k apart) d.0,
        insert_key-Distinct k ks rest d.1,
      ))
  | inr not_less ↦ rw not_less (h, d)
]
  where
    or_is_false : {a b : Bool} → (a || b) ≡ false → (a ≡ false) × (b ≡ false)
    or_is_false {a} {b} e = ground arith

    both_false : {a b : Bool} → a ≡ false → b ≡ false → (a || b) ≡ false
    both_false {a} {b} e f = ground arith

pub sort_keys-Distinct : (ks : List ViolationKey) → Distinct ks → Distinct (sort_keys ks)
unfolding sort_keys
sort_keys-Distinct [] d = tt
sort_keys-Distinct (k ∷ ks) (fresh, d) =
    insert_key-Distinct k (sort_keys ks) (has-sort_keys k ks ∙ fresh) (sort_keys-Distinct ks d)

entry_keys-insert :
    (k : ViolationKey) (m : List (ViolationKey × Bool))
    → lookup k m ≡ none
    → entry_keys (insert k false m) ≡ entry_keys m ++ k ∷ []
unfolding entry_keys lookup insert
entry_keys-insert k [] h = refl
entry_keys-insert k ((j, used) ∷ m) h = elim (Bool-cases (key_eq j k)) [
  | inl same ↦ absurd (clash same)
  | inr other ↦ rw other (ap (λ ks. j ∷ ks) (entry_keys-insert k m (passed other)))
]
  where
    clash : key_eq j k ≡ true → ⊥
    clash e = ground (arith, h)

    passed : key_eq j k ≡ false → lookup k m ≡ none
    passed e = ground (arith, h)

-- No entry is used.
abbrev pub Unused : List (ViolationKey × Bool) → Type 0
Unused m = All (λ e. e.1 ≡ false) m

insert-Unused :
    (k : ViolationKey) (m : List (ViolationKey × Bool)) → Unused m → Unused (insert k false m)
unfolding insert
insert-Unused k [] u = (refl, tt)
insert-Unused k ((j, used) ∷ m) (h, u) = elim (Bool-cases (key_eq j k)) [
  | inl same ↦ rw same (refl, u)
  | inr other ↦ rw other (h, insert-Unused k m u)
]

unused_keys-Unused : (m : List (ViolationKey × Bool)) → Unused m → unused_keys m ≡ entry_keys m
unfolding unused_keys entry_keys
unused_keys-Unused [] u = refl
unused_keys-Unused ((k, used) ∷ m) (h, u) = rw h (ap (λ ks. k ∷ ks) (unused_keys-Unused m u))

mark_false-Unused :
    (ks : List ViolationKey) (b : Baseline) → Unused b.entries → Unused (mark_false ks b).entries
unfolding mark_false
mark_false-Unused [] b u = u
mark_false-Unused (k ∷ ks) b u = mark_false-Unused ks _ (insert-Unused k b.entries u)

-- Keys that are not in the map yet.
abbrev Fresh : List ViolationKey → List (ViolationKey × Bool) → Type 0
Fresh ks m = All (λ k. lookup k m ≡ none) ks

Fresh-insert :
    (k : ViolationKey) (ks : List ViolationKey) (m : List (ViolationKey × Bool))
    → has k ks ≡ false
    → Fresh ks m
    → Fresh ks (insert k false m)
Fresh-insert k [] m h f = tt
Fresh-insert k (j ∷ ks) m h (f, fs) =
    (lookup-insert k j false m ∙ rw (key_eq_sym j k (first h)) f, Fresh-insert k ks m (rest h) fs)
  where
    first : (key_eq j k || has k ks) ≡ false → key_eq j k ≡ false
    first e = ground arith

    rest : (key_eq j k || has k ks) ≡ false → has k ks ≡ false
    rest e = ground arith

entry_keys-mark_false :
    (ks : List ViolationKey) (b : Baseline)
    → Distinct ks
    → Fresh ks b.entries
    → entry_keys (mark_false ks b).entries ≡ entry_keys b.entries ++ ks
unfolding mark_false
entry_keys-mark_false [] b d f = sym (append-nil (entry_keys b.entries))
entry_keys-mark_false (k ∷ ks) b (h, d) (f, fs) =
    entry_keys-mark_false ks _ d (Fresh-insert k ks b.entries h fs)
    ∙ ap (λ front. front ++ ks) (entry_keys-insert k b.entries f)
    ∙ append_assoc (entry_keys b.entries) (k ∷ []) ks

Fresh-nil : (ks : List ViolationKey) → Fresh ks []
unfolding lookup
Fresh-nil [] = tt
Fresh-nil (k ∷ ks) = (refl, Fresh-nil ks)

-- A map from different keys has just these, in their order.
pub entry_keys-baseline_from_entries :
    (ks : List ViolationKey) → Distinct ks → entry_keys (baseline_from_entries ks).entries ≡ ks
unfolding baseline_from_entries new_baseline entry_keys
entry_keys-baseline_from_entries ks d = entry_keys-mark_false ks new_baseline d (Fresh-nil ks)

pub unused_keys-baseline_from_entries :
    (ks : List ViolationKey)
    → unused_keys (baseline_from_entries ks).entries ≡ entry_keys (baseline_from_entries ks).entries
unfolding baseline_from_entries new_baseline
unused_keys-baseline_from_entries ks = unused_keys-Unused _ (mark_false-Unused ks new_baseline tt)

is_some-lookup :
    (k : ViolationKey) (ks : List ViolationKey)
    → is_some (lookup k (mark_false ks new_baseline).entries) ≡ has k ks
is_some-lookup k ks = ap is_some (lookup-mark_false k ks new_baseline) ∙ at (has k ks)
  where
    at : (t : Bool) → is_some (if t then some false else lookup k new_baseline.entries) ≡ t
    at true = refl
    at false = unfold new_baseline lookup in refl

pub has-baseline_from_entries :
    (k : ViolationKey) (ks : List ViolationKey)
    → is_some (lookup k (baseline_from_entries ks).entries) ≡ has k ks
unfolding baseline_from_entries
has-baseline_from_entries k ks = is_some-lookup k ks
