-- ===== src/Tests/Reports.antt =====
-- Keys, reporters and stacks.
use go_txnpure.Base.{
  if◌then◌else◌, length, take, pos, nat_eq, Bytes, codes, bytes_eq, bytes_Eq, lookup, ℕ, suc, ◌≤◌,
  ◌≡◌, refl, ◌≢◌, Bool, true, false, none, some, List, [], ◌∷◌, ◌++◌, arith,
}
use mathlib.Core.List.{Perm}
use mathlib.Core.List.Perm
use go_txnpure.Baseline.{Baseline}
use go_txnpure.Identity.Separated.{NoZero, identity_key-injective}
use go_txnpure.Identity.{key_Eq}
use go_txnpure.Report.{Violation}
use go_txnpure.Reporter.{baseline, collecting, new_collecting}
use go_txnpure.Reporter.Filter.{
  receive_violations, unknown, used_after, receive_violations-baseline,
}
use go_txnpure.Stack.{StackFrame, capture_stack}
use go_txnpure.Stack.Capture.{outside_frames, capture_stack-take}
use go_txnpure.Allow.{declared_keys, shortfalls}
use go_txnpure.Allow.Ordering.{shortfalls-perm}
use go_txnpure.Detector.{blank_mark}
use go_txnpure.State.{CallCount, Scope}
use go_txnpure.Throttle.{pass}
use go_txnpure.Throttle.Cap.{pass_capped, pass_capped-Capped}
use go_txnpure.Identity.{key_eq}
use go_txnpure.Throttle.Keys.{Arrival, pass_all, times_of, flags_of, alone, pass_all-alone}
use go_txnpure.Throttle.Spacing.{passed, Spaced, Accounts, pass_all-Spaced}
use go_txnpure.Identity.{ViolationKey, sort_keys}
use go_txnpure.Identity.Order.{Ordered, sort_keys-perm}
use go_txnpure.Tests.{key_a, key_b}

sort_keys-perm_example :
    Ordered (sort_keys (key_a ∷ key_b ∷ []))
    × Perm (sort_keys (key_a ∷ key_b ∷ [])) (key_b ∷ key_a ∷ [])
    × (sort_keys (key_a ∷ key_b ∷ []) ≡ sort_keys (key_b ∷ key_a ∷ []))
sort_keys-perm_example =
    sort_keys-perm (key_a ∷ key_b ∷ []) (key_b ∷ key_a ∷ []) (Perm.swap key_b key_a [])

abbrev violation_of : ViolationKey → Violation
violation_of k = record {
  op = record { kind = k.kind; name = k.name };
  scope = k.scope;
  open_txs = pos 1;
  call = pos 1;
  allowed_calls = [];
  stack = [];
  attrs = [];
  time = 0;
}

abbrev known_a : Baseline
known_a = record { entries = (key_a, false) ∷ [] }

receive_violations-baseline_example :
    (after : Baseline) × (receive_violations 5
        (baseline (some known_a) (collecting new_collecting))
        (violation_of key_a ∷ violation_of key_b ∷ [])
      ≡ baseline (some after) (
          collecting (record new_collecting {
            violations =
                new_collecting.violations
                ++ unknown known_a (violation_of key_a ∷ violation_of key_b ∷ []);
          })))
    × ((k : ViolationKey)
        → lookup k after.entries
          ≡ used_after k (violation_of key_a ∷ violation_of key_b ∷ []) (lookup k known_a.entries))
receive_violations-baseline_example =
    receive_violations-baseline 5 known_a new_collecting
      (violation_of key_a ∷ violation_of key_b ∷ [])

abbrev arrivals : List Arrival
arrivals = (codes "a", 0) ∷ (codes "b", 3) ∷ (codes "a", 4) ∷ (codes "a", 12) ∷ []

pass_all-alone_example :
    (
      flags_of (codes "a") arrivals (pass_all (pos 10) [] arrivals).0,
      lookup (codes "a") (pass_all (pos 10) [] arrivals).1,
    )
    ≡ alone (pos 10) (lookup (codes "a") []) (times_of (codes "a") arrivals)
pass_all-alone_example = pass_all-alone (pos 10) [] arrivals (codes "a") (ground arith)

pass_all-Spaced_example :
    Spaced (pos 10) (
      passed
        (times_of (codes "a") arrivals)
        (flags_of (codes "a") arrivals (pass_all (pos 10) [] arrivals).0))
    × Accounts
        (length (times_of (codes "a") arrivals))
        (length (
          passed
            (times_of (codes "a") arrivals)
            (flags_of (codes "a") arrivals (pass_all (pos 10) [] arrivals).0)))
        (lookup (codes "a") (pass_all (pos 10) [] arrivals).1)
pass_all-Spaced_example =
    pass_all-Spaced (pos 10) arrivals (codes "a") (ground arith) (unfold bytes_eq in omega arith)

abbrev frame : Bytes → StackFrame
frame function = record { function = function; file = codes "a.go"; line = 7 }

abbrev frames : List StackFrame
frames =
    frame (codes "github.com/moznion/go-txnpure.(*Detector).Check")
    ∷ frame (codes "app.Pay")
    ∷ frame (codes "app.main")
    ∷ []

capture_stack-take_example :
    capture_stack (pos 1) (λ n. take n frames) ≡ take 1 (outside_frames (take 17 frames))
capture_stack-take_example = capture_stack-take (pos 1) (λ n. take n frames)

app_frame : capture_stack (pos 1) (λ n. take n frames) ≡ frame (codes "app.Pay") ∷ []
unfolding capture_stack
app_frame = refl

pay_bytes : NoZero (codes "pay")
pay_bytes = (nonzero 111, (nonzero 96, (nonzero 120, tt)))
  where
    nonzero : (n : ℕ) → suc n ≢ 0
    nonzero n e = omega (arith, e)

http_bytes : NoZero (codes "http")
http_bytes = (nonzero 103, (nonzero 115, (nonzero 115, (nonzero 111, tt))))
  where
    nonzero : (n : ℕ) → suc n ≢ 0
    nonzero n e = omega (arith, e)

identity_key-injective_example : key_a ≡ key_a
identity_key-injective_example =
    identity_key-injective key_a key_a pay_bytes http_bytes pay_bytes http_bytes refl

pass_capped-Capped_example :
    (length (pass_capped (pos 10) 1 [] arrivals).1 ≤ 1)
    × ((key : Bytes) (now : ℕ)
        → lookup key (pass_capped (pos 10) 1 [] arrivals).1 ≡ none
        → (pass (pos 10) now (pass_capped (pos 10) 1 [] arrivals).1 key 1).0 ≡ true)
pass_capped-Capped_example = pass_capped-Capped (pos 10) 1 [] arrivals (omega arith) (omega arith)

abbrev count_a : CallCount
count_a = record { n = pos 1; declared = pos 2 ∷ []; reason = codes "audit" }

abbrev paid : Scope
paid = record {
  name = codes "pay";
  attrs = [];
  open_txs = pos 0;
  finished = false;
  calls = (key_a, count_a) ∷ (key_b, count_a) ∷ [];
  marks = [];
}

same_calls :
    (key : ViolationKey)
    → lookup key paid.calls ≡ lookup key ((key_b, count_a) ∷ (key_a, count_a) ∷ [])
unfolding lookup
same_calls key = either (key_eq key_a key) (key_eq key_b key)
  where
    either :
        (a b : Bool)
        → (if a then some count_a else if b then some count_a else none)
          ≡ (if b then some count_a else if a then some count_a else none)
    either true true = refl
    either true false = refl
    either false true = refl
    either false false = refl

shortfalls-perm_example :
    shortfalls paid (λ m. blank_mark)
    ≡ shortfalls
        (record paid { calls = (key_b, count_a) ∷ (key_a, count_a) ∷ [] })
        (λ m. blank_mark)
shortfalls-perm_example =
    shortfalls-perm paid ((key_b, count_a) ∷ (key_a, count_a) ∷ []) (λ m. blank_mark)
      (unfold declared_keys in Perm.swap key_b key_a []) same_calls
