-- ===== src/Allow/Ordering.antt =====
-- allow.go: the reports at the end of a scope against the order of the map of its calls.
use go_txnpure.Base.{nat_eq, bytes_Eq, lookup, ℕ, ◌≡◌, refl, ap, ◌∙◌, List, [], ◌∷◌, ◌++◌}
use mathlib.Core.List.{Perm}
use mathlib.Core.Path.{ap₂}
use go_txnpure.Allow.{declared_keys, stale_calls, stale_marks, shortfalls}
use go_txnpure.Identity.{ViolationKey, key_Eq, sort_keys}
use go_txnpure.Identity.Order.{sort_keys-perm}
use go_txnpure.State.{AllowMark, CallCount, Scope}

stale_calls-lookup :
    (s : Scope) (c : List (ViolationKey × CallCount)) (keys : List ViolationKey)
    → ((key : ViolationKey) → lookup key s.calls ≡ lookup key c)
    → stale_calls s keys ≡ stale_calls (record s { calls = c }) keys
unfolding stale_calls
stale_calls-lookup s c [] same = refl
stale_calls-lookup s c (key ∷ keys) same = rw (same key, stale_calls-lookup s c keys same) refl

stale_marks-calls :
    (s : Scope) (c : List (ViolationKey × CallCount)) (mark_at : ℕ → AllowMark) (marks : List ℕ)
    → stale_marks s mark_at marks ≡ stale_marks (record s { calls = c }) mark_at marks
unfolding stale_marks
stale_marks-calls s c mark_at [] = refl
stale_marks-calls s c mark_at (m ∷ marks) = rw (stale_marks-calls s c mark_at marks) refl

-- The shortfalls of a scope do not depend on the order in which the map of its calls yields its
-- keys: they are the same for any two orders of the declared keys and of equal entries.
pub shortfalls-perm :
    (s : Scope) (c : List (ViolationKey × CallCount)) (mark_at : ℕ → AllowMark)
    → Perm (declared_keys s.calls) (declared_keys c)
    → ((key : ViolationKey) → lookup key s.calls ≡ lookup key c)
    → shortfalls s mark_at ≡ shortfalls (record s { calls = c }) mark_at
unfolding shortfalls
shortfalls-perm s c mark_at p same =
    ap₂ (λ xs ys. xs ++ ys)
      (ap (stale_calls s) (sort_keys-perm (declared_keys s.calls) (declared_keys c) p).2
        ∙ stale_calls-lookup s c (sort_keys (declared_keys c)) same)
      (stale_marks-calls s c mark_at s.marks)
