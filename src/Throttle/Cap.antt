-- ===== src/Throttle/Cap.antt =====
-- throttle.go: the cap on the keys of unscoped transactions.
use go_txnpure.Base.{
  ltb, leb, if◌then◌else◌, Bool-cases, length, ℤ, pos, leb_ℤ, inc64, nat_eq, Bytes, bytes_eq,
  bytes_Eq, lookup, insert, ℕ, suc, ◌≤◌, ◌<◌, ◌≡◌, refl, ap, inl, inr, Bool, true, false, Option,
  none, some, List, [], ◌∷◌, arith,
}
use go_txnpure.Throttle.{
  ThrottleState, Windows, duration_sub, admit_known, admit_new, admit_at, admit, pass,
}
use go_txnpure.Throttle.Keys.{Arrival}

-- The reports in turn, in a map with a cap.
abbrev pub pass_capped : ℤ → ℕ → Windows → List Arrival → List Bool × Windows
pass_capped interval cap m [] = ([], m)
pass_capped interval cap m ((key, now) ∷ arrivals) =
    let (go, m') = pass interval now m key cap in
    let (rest, after) = pass_capped interval cap m' arrivals in (go ∷ rest, after)

length-insert-le :
    (key : Bytes) (st : ThrottleState) (m : Windows) → length (insert key st m) ≤ suc (length m)
unfolding insert
length-insert-le key st [] = omega arith
length-insert-le key st ((k, s) ∷ m) = ground (arith, length-insert-le key st m)

length-insert-known :
    (key : Bytes) (st old : ThrottleState) (m : Windows)
    → lookup key m ≡ some old
    → length (insert key st m) ≡ length m
unfolding insert lookup
length-insert-known key st old [] h = absurd cc
length-insert-known key st old ((k, s) ∷ m) h = elim (Bool-cases (bytes_eq k key)) [
  | inl hit ↦ rw hit refl
  | inr miss ↦ rw miss (ap suc (length-insert-known key st old m (rw miss at h)))
]

-- One report keeps the cap, and passes if its key is not tracked.
abbrev Capped : ℕ → Bytes → Windows → Bool × Windows → Type 0
Capped cap key m (go, after) = (length after ≤ cap) × (lookup key m ≡ none → go ≡ true)

pass-Capped :
    (interval : ℤ) (now cap : ℕ) (m : Windows) (key : Bytes)
    → 0 < cap
    → length m ≤ cap
    → Capped cap key m (pass interval now m key cap)
unfolding pass admit admit_known admit_new
pass-Capped interval now cap m key some_cap fits = at (leb_ℤ interval (pos 0))
  where
    fresh :
        (b : Bool)
        → leb cap (length m) ≡ b
        → Capped cap key m (
            if b
            then (true, m)
            else (true, insert key (record { last_forwarded = now; suppressed = pos 0 }) m))
    fresh true e = (fits, λ _. refl)
    fresh false e = (
      ground (arith, length-insert-le key (record { last_forwarded = now; suppressed = pos 0 }) m),
      λ _. refl,
    )

    known :
        (st : ThrottleState)
        → lookup key m ≡ some st
        → Capped cap key m (admit_known interval now m key st)
    known st e = decided (leb_ℤ interval (duration_sub now st.last_forwarded))
      where
        kept : (st' : ThrottleState) → length (insert key st' m) ≤ cap
        kept st' = rw (length-insert-known key st' st m e) fits

        decided :
            (b : Bool)
            → Capped cap key m (
                if b
                then (true, insert key (record st { last_forwarded = now }) m)
                else (false, insert key (record st { suppressed = inc64 st.suppressed }) m))
        decided true = (kept (record st { last_forwarded = now }), λ _. refl)
        decided false = (kept (record st { suppressed = inc64 st.suppressed }), λ n. absurd cc)

    capped : ltb 0 cap ≡ true
    capped = ground arith

    tracked :
        (o : Option ThrottleState)
        → lookup key m ≡ o
        → Capped cap key m (admit_at interval now m key cap o)
    tracked none e = rw capped (fresh (leb cap (length m)) refl)
    tracked (some st) e = known st e

    at : (b : Bool) → Capped cap key m (if b then (true, m) else admit interval now m key cap)
    at true = (fits, λ _. refl)
    at false = tracked (lookup key m) refl

-- A map with a cap never has more keys than that, and a report whose key is not in the map passes,
-- also when the map is full.
pub pass_capped-Capped :
    (interval : ℤ) (cap : ℕ) (m : Windows) (arrivals : List Arrival)
    → 0 < cap
    → length m ≤ cap
    → (let after = (pass_capped interval cap m arrivals).1 in
        (length after ≤ cap)
        × ((key : Bytes) (now : ℕ)
            → lookup key after ≡ none
            → (pass interval now after key cap).0 ≡ true))
pass_capped-Capped interval cap m [] some_cap fits =
    (fits, λ key now. (pass-Capped interval now cap m key some_cap fits).1)
pass_capped-Capped interval cap m ((key, now) ∷ arrivals) some_cap fits =
    pass_capped-Capped interval cap (pass interval now m key cap).1 arrivals some_cap
      (pass-Capped interval now cap m key some_cap fits).0
