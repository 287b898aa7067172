-- ===== src/Reporter/Filter.antt =====
-- baseline.go: what passes a baseline, and what the baseline has seen.
use go_txnpure.Base.{
  if◌then◌else◌, any, nat_eq, bytes_Eq, lookup, insert, lookup-insert, ℕ, ◌≡◌, refl, sym, ap, ◌∙◌,
  Bool, true, false, ◌||◌, Option, none, some, List, [], ◌∷◌, ◌++◌, arith,
}
use mathlib.Core.List.{append_assoc, append-nil}
use go_txnpure.Baseline.{Baseline, covers, mark_used}
use go_txnpure.Identity.{ViolationKey, key_Eq, key_eq, key_eq_iff}
use go_txnpure.Report.{Violation, violation_key, violation}
use go_txnpure.Reporter.{Collected, Reporter, collecting, baseline, collect, receive, choose}

abbrev pub receive_violations : ℕ → Reporter → List Violation → Reporter
receive_violations now x [] = x
receive_violations now x (v ∷ vs) = receive_violations now (receive now x (violation v)) vs

abbrev pub is_some {ℓ} : {A : Type ℓ} → Option A → Bool
is_some none = false
is_some (some a) = true

abbrev pub known : Baseline → Violation → Bool
known b v = is_some (lookup (violation_key v) b.entries)

-- The violations whose identity is in no entry.
abbrev pub unknown : Baseline → List Violation → List Violation
unknown b [] = []
unknown b (v ∷ vs) = if known b v then unknown b vs else v ∷ unknown b vs

abbrev pub has_key : ViolationKey → List Violation → Bool
has_key k vs = any (λ v. key_eq (violation_key v) k) vs

-- An entry is used if it was before, or if one of the violations has its identity.
abbrev pub used_after : ViolationKey → List Violation → Option Bool → Option Bool
used_after k vs none = none
used_after k vs (some used) = some (used || has_key k vs)

is_some-insert :
    (key k : ViolationKey) (m : List (ViolationKey × Bool)) (used : Bool)
    → lookup key m ≡ some used
    → is_some (lookup k (insert key true m)) ≡ is_some (lookup k m)
is_some-insert key k m used h = rw (lookup-insert key k true m) (at (key_eq key k) refl)
  where
    at :
        (b : Bool)
        → key_eq key k ≡ b
        → is_some (if b then some true else lookup k m) ≡ is_some (lookup k m)
    at true e = rw (sym ((key_eq_iff key k).0 e), h) refl
    at false e = refl

unknown-insert :
    (key : ViolationKey) (b : Baseline) (used : Bool) (vs : List Violation)
    → lookup key b.entries ≡ some used
    → unknown (record { entries = insert key true b.entries }) vs ≡ unknown b vs
unknown-insert key b used [] h = refl
unknown-insert key b used (v ∷ vs) h =
    rw (is_some-insert key (violation_key v) b.entries used h, unknown-insert key b used vs h) refl

abbrev seen_or : Bool → ViolationKey → List Violation → Option Bool → Option Bool
seen_or b k vs none = none
seen_or b k vs (some u) = some (u || (b || has_key k vs))

used_after-insert :
    (key k : ViolationKey) (m : List (ViolationKey × Bool)) (used : Bool) (vs : List Violation)
    → lookup key m ≡ some used
    → used_after k vs (lookup k (insert key true m)) ≡ seen_or (key_eq key k) k vs (lookup k m)
used_after-insert key k m used vs h = rw (lookup-insert key k true m) (at (key_eq key k) refl)
  where
    or-true : (u : Bool) → some true ≡ some (u || true)
    or-true true = refl
    or-true false = refl

    kept : (o : Option Bool) → used_after k vs o ≡ seen_or false k vs o
    kept none = refl
    kept (some u) = refl

    at :
        (b : Bool)
        → key_eq key k ≡ b
        → used_after k vs (if b then some true else lookup k m) ≡ seen_or b k vs (lookup k m)
    at true e = rw (sym ((key_eq_iff key k).0 e), h) (or-true used)
    at false e = kept (lookup k m)

none_seen : (k : ViolationKey) (o : Option Bool) → o ≡ used_after k [] o
none_seen k none = refl
none_seen k (some true) = refl
none_seen k (some false) = refl

-- What a baseline in front of a collecting reporter becomes.
pub record Filtered (b : Baseline) (c : Collected) (vs : List Violation) (x : Reporter)
    : Type 0 where
  pub after : Baseline
  pub passes :
      x
      ≡ baseline (some after) (collecting (record c { violations = c.violations ++ unknown b vs }))
  pub marks : (k : ViolationKey) → lookup k after.entries ≡ used_after k vs (lookup k b.entries)

Filtered-unknown :
    (b : Baseline) (c : Collected) (v : Violation) (vs : List Violation) (x : Reporter)
    → lookup (violation_key v) b.entries ≡ none
    → Filtered b (collect c (violation v)) vs x
    → Filtered b c (v ∷ vs) x
unfolding collect
Filtered-unknown b c v vs x e r = record {
  after = r.after;
  passes =
      r.passes
      ∙ ap (λ seen. baseline (some r.after) (collecting (record c { violations = seen })))
          (rw e (append_assoc c.violations (v ∷ []) (unknown b vs)));
  marks = λ k. r.marks k ∙ not_seen k (lookup k b.entries) refl;
}
  where
    other_key :
        (k : ViolationKey) (u : Bool)
        → lookup k b.entries ≡ some u
        → key_eq (violation_key v) k ≡ false
    other_key k u h = grind (arith, key_eq_iff (violation_key v) k)

    not_seen :
        (k : ViolationKey) (o : Option Bool)
        → lookup k b.entries ≡ o
        → used_after k vs o ≡ used_after k (v ∷ vs) o
    not_seen k none h = refl
    not_seen k (some u) h = rw (other_key k u h) refl

Filtered-known :
    (b : Baseline) (c : Collected) (v : Violation) (vs : List Violation) (x : Reporter)
    (used : Bool)
    → lookup (violation_key v) b.entries ≡ some used
    → Filtered (record { entries = insert (violation_key v) true b.entries }) c vs x
    → Filtered b c (v ∷ vs) x
Filtered-known b c v vs x used e r = record {
  after = r.after;
  passes =
      r.passes
      ∙ ap
          (λ seen.
            baseline (some r.after) (collecting (record c { violations = c.violations ++ seen })))
          (unknown-insert (violation_key v) b used vs e ∙ rw e refl);
  marks = λ k.
      r.marks k
      ∙ used_after-insert (violation_key v) k b.entries used vs e
      ∙ seen_or-used_after k (lookup k b.entries);
}
  where
    seen_or-used_after :
        (k : ViolationKey) (o : Option Bool)
        → seen_or (key_eq (violation_key v) k) k vs o ≡ used_after k (v ∷ vs) o
    seen_or-used_after k none = refl
    seen_or-used_after k (some u) = refl

receive_violations-Filtered :
    (now : ℕ) (b : Baseline) (c : Collected) (vs : List Violation)
    → Filtered b c vs (receive_violations now (baseline (some b) (collecting c)) vs)
unfolding receive covers
receive_violations-Filtered now b c [] = record {
  after = b;
  passes =
      ap (λ seen. baseline (some b) (collecting (record c { violations = seen })))
        (sym (append-nil c.violations));
  marks = λ k. none_seen k (lookup k b.entries);
}
receive_violations-Filtered now b c (v ∷ vs) =
    at (lookup (violation_key v) b.entries) refl (λ b' c'. receive_violations-Filtered now b' c' vs)
  where
    at :
        (o : Option Bool)
        → lookup (violation_key v) b.entries ≡ o
        → ((b' : Baseline) (c' : Collected)
            → Filtered b' c' vs (receive_violations now (baseline (some b') (collecting c')) vs))
        → Filtered b c (v ∷ vs) (
            receive_violations now
              (let (known, b') = mark_used (violation_key v) b o in
                baseline
                  (some b')
                  (choose known (collecting c) (collecting (collect c (violation v)))))
              vs)
    at none e rest = Filtered-unknown b c v vs _ e (rest b (collect c (violation v)))
    at (some used) e rest = Filtered-known b c v vs _ used e (rest _ c)

-- A baseline in front of a collecting reporter passes on exactly the violations whose identity is in
-- no entry, in their order; afterwards its entries are the same, and those are used that were used
-- before or whose identity one of the violations has.
pub receive_violations-baseline :
    (now : ℕ) (b : Baseline) (c : Collected) (vs : List Violation)
    → (after : Baseline) × (receive_violations now (baseline (some b) (collecting c)) vs
        ≡ baseline
            (some after)
            (collecting (record c { violations = c.violations ++ unknown b vs })))
      × ((k : ViolationKey) → lookup k after.entries ≡ used_after k vs (lookup k b.entries))
receive_violations-baseline now b c vs =
    let r = receive_violations-Filtered now b c vs in (r.after, r.passes, r.marks)
