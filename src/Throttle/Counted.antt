-- ===== src/Throttle/Counted.antt =====
-- throttle.go: the counts of the windows. Each report passes or is counted for its key.
use go_txnpure.Base.{
  if◌then◌else◌, Bool-cases, All, ℤ, pos, negsuc, pos_part, leb_ℤ, max_int64, inc64, inc64-pos,
  nat_eq, Bytes, bytes_eq, bytes_eq_iff, bytes_Eq, lookup, insert, ℕ, ◌+◌, ◌≤◌, ◌<◌, ◌≡◌, refl, sym,
  ap, ◌∙◌, inl, inr, Bool, true, false, Option, none, some, List, [], ◌∷◌, arith,
}
use mathlib.Core.Option.{some-injective}
use mathlib.Core.Path.{subst}
use go_txnpure.Throttle.{ThrottleState, Windows, duration_sub, pass, snapshot}
use go_txnpure.Throttle.Keys.{noted, alone_step, pass-alone_step}

abbrev pub at_key : Bool → ℕ → ℕ
at_key hit n = if hit then n else 0

pub at_key_zero : (hit : Bool) → at_key hit 0 ≡ 0
at_key_zero true = refl
at_key_zero false = refl

-- What a map of windows, or its snapshot, counts for a key.
abbrev pub held_back : Bytes → Windows → ℕ
held_back k [] = 0
held_back k ((key, st) ∷ m) = at_key (bytes_eq key k) (pos_part st.suppressed) + held_back k m

abbrev pub volume : Bytes → List (Bytes × ℤ) → ℕ
volume k [] = 0
volume k ((key, n) ∷ m) = at_key (bytes_eq key k) (pos_part n) + volume k m

not_positive : (n : ℤ) → leb_ℤ n (pos 0) ≡ true → pos_part n ≡ 0
not_positive (pos n) h = ground arith
not_positive (negsuc n) h = refl

pub volume-snapshot : (k : Bytes) (m : Windows) → volume k (snapshot m) ≡ held_back k m
unfolding snapshot
volume-snapshot k [] = refl
volume-snapshot k ((key, st) ∷ m) =
    at st.suppressed (leb_ℤ st.suppressed (pos 0)) refl (volume-snapshot k m)
  where
    at :
        (n : ℤ) (b : Bool)
        → leb_ℤ n (pos 0) ≡ b
        → volume k (snapshot m) ≡ held_back k m
        → volume k (if b then snapshot m else (key, n) ∷ snapshot m)
          ≡ at_key (bytes_eq key k) (pos_part n) + held_back k m
    at n true e rest = rw (not_positive n e) (omega (arith, rest, at_key_zero (bytes_eq key k)))
    at n false e rest = omega (arith, rest)

-- The count is the number of at most `n` reports.
pub record Within (n : ℕ) (st : ThrottleState) : Type 0 where
  pub number : ℕ
  pub is_number : st.suppressed ≡ pos number
  pub at_most : number ≤ n

abbrev pub AllWithin : ℕ → Windows → Type 0
AllWithin n m = All (λ e. Within n e.1) m

abbrev old_part : Option ThrottleState → ℕ
old_part none = 0
old_part (some st) = pos_part st.suppressed

-- A window that takes the place of another one.
held_back-insert :
    (k key : Bytes) (st : ThrottleState) (m : Windows)
    → held_back k (insert key st m) + at_key (bytes_eq key k) (old_part (lookup key m))
      ≡ held_back k m + at_key (bytes_eq key k) (pos_part st.suppressed)
unfolding insert lookup
held_back-insert k key st [] = omega (arith, at_key_zero (bytes_eq key k))
held_back-insert k key st ((j, old) ∷ m) = elim (Bool-cases (bytes_eq j key)) [
  | inl same ↦ rw same (
      omega (
        arith,
        ap (λ s. at_key (bytes_eq s k) (pos_part old.suppressed)) ((bytes_eq_iff j key).0 same),
      ))
  | inr other ↦ rw other (omega (arith, held_back-insert k key st m))
]

Within-suc : {n : ℕ} {st : ThrottleState} → Within n st → Within (n + 1) st
Within-suc w = record {
  number = w.number;
  is_number = w.is_number;
  at_most = omega (arith, w.at_most);
}

AllWithin-suc : (n : ℕ) (m : Windows) → AllWithin n m → AllWithin (n + 1) m
AllWithin-suc n [] ws = tt
AllWithin-suc n ((key, st) ∷ m) (w, ws) = (Within-suc w, AllWithin-suc n m ws)

AllWithin-insert :
    (n : ℕ) (key : Bytes) (st : ThrottleState) (m : Windows)
    → Within (n + 1) st
    → AllWithin n m
    → AllWithin (n + 1) (insert key st m)
unfolding insert
AllWithin-insert n key st [] w ws = (w, tt)
AllWithin-insert n key st ((j, old) ∷ m) w (o, ws) = elim (Bool-cases (bytes_eq j key)) [
  | inl same ↦ rw same (w, AllWithin-suc n m ws)
  | inr other ↦ rw other (Within-suc o, AllWithin-insert n key st m w ws)
]

AllWithin-lookup :
    (n : ℕ) (key : Bytes) (st : ThrottleState) (m : Windows)
    → lookup key m ≡ some st
    → AllWithin n m
    → Within n st
unfolding lookup
AllWithin-lookup n key st [] h ws = cc
AllWithin-lookup n key st ((j, old) ∷ m) h (o, ws) = elim (Bool-cases (bytes_eq j key)) [
  | inl same ↦ subst (Within n) (some-injective _ _ (rw same at h)) o
  | inr other ↦ AllWithin-lookup n key st m (rw other at h) ws
]

-- What one report does to the counts: it passes, or it is counted for its key.
pub record Step (n : ℕ) (m : Windows) (key : Bytes) (r : Bool × Windows) : Type 0 where
  pub counted :
      (k : Bytes)
      → at_key (bytes_eq key k) (if r.0 then 1 else 0) + held_back k r.1
        ≡ at_key (bytes_eq key k) 1 + held_back k m
  pub within : AllWithin (n + 1) r.1

balance :
    (hit : Bool) (g new old before after : ℕ)
    → g + new ≡ 1 + old
    → after + at_key hit old ≡ before + at_key hit new
    → at_key hit g + after ≡ at_key hit 1 + before
balance true g new old before after e f = omega (arith, e, f)
balance false g new old before after e f = omega (arith, f)

Step-insert :
    (n : ℕ) (m : Windows) (key : Bytes) (go : Bool) (st : ThrottleState)
    → (if go then 1 else 0) + pos_part st.suppressed ≡ 1 + old_part (lookup key m)
    → Within (n + 1) st
    → AllWithin n m
    → Step n m key (go, insert key st m)
Step-insert n m key go st e w ws = record {
  counted = λ k.
      balance (bytes_eq key k) (if go then 1 else 0) (pos_part st.suppressed)
        (old_part (lookup key m)) (held_back k m) (held_back k (insert key st m)) e
        (held_back-insert k key st m);
  within = AllWithin-insert n key st m w ws;
}

Step-alone :
    (interval : ℤ) (n now : ℕ) (m : Windows) (key : Bytes)
    → n < max_int64
    → AllWithin n m
    → Step n m key (noted key m (alone_step interval now (lookup key m)))
Step-alone interval n now m key fits ws = at (lookup key m) refl
  where
    known :
        (st : ThrottleState) (b : Bool)
        → lookup key m ≡ some st
        → Within n st
        → Step n m key (
            noted key m (
              if b
              then (true, record st { last_forwarded = now })
              else (false, record st { suppressed = inc64 st.suppressed })))
    known st true e w =
        Step-insert n m key true (record st { last_forwarded = now })
          (ap (λ o. 1 + old_part o) (sym e))
          (record {
            number = w.number;
            is_number = w.is_number;
            at_most = omega (arith, w.at_most);
          })
          ws
    known st false e w =
        let more = ap inc64 w.is_number ∙ inc64-pos w.number (omega (arith, w.at_most)) in
        Step-insert n m key false (record st { suppressed = inc64 st.suppressed })
          (omega (arith, ap pos_part more, ap old_part e, ap pos_part w.is_number))
          (record { number = w.number + 1; is_number = more; at_most = omega (arith, w.at_most) })
          ws

    at :
        (o : Option ThrottleState)
        → lookup key m ≡ o
        → Step n m key (noted key m (alone_step interval now o))
    at none e =
        Step-insert n m key true (record { last_forwarded = now; suppressed = pos 0 })
          (ap (λ o. 1 + old_part o) (sym e))
          (record { number = 0; is_number = refl; at_most = omega arith }) ws
    at (some st) e =
        known st (leb_ℤ interval (duration_sub now st.last_forwarded)) e
          (AllWithin-lookup n key st m e ws)

-- An interval that is not positive lets every report pass.
pub Step-pass :
    (interval : ℤ) (n now : ℕ) (m : Windows) (key : Bytes)
    → n < max_int64
    → AllWithin n m
    → Step n m key (pass interval now m key 0)
Step-pass interval n now m key fits ws = elim (Bool-cases (leb_ℤ interval (pos 0))) [
  | inl off ↦
      subst (Step n m key) (sym (passes off))
        (record { counted = λ k. refl; within = AllWithin-suc n m ws })
  | inr on ↦
      subst (Step n m key) (sym (pass-alone_step interval now m key on))
        (Step-alone interval n now m key fits ws)
]
  where
    passes : leb_ℤ interval (pos 0) ≡ true → pass interval now m key 0 ≡ (true, m)
    passes h = unfold pass in rw h refl
