-- ===== src/Check/Calls.antt =====
-- allow.go and check.go: the call counters of a scope.
use go_txnpure.Base.{
  ◌==◌, if◌then◌else◌, ==_iff, Bool-cases, ℤ, inc64, nat_eq, Bytes, bytes_Eq, lookup, insert,
  lookup-insert, ℕ, ◌≡◌, refl, sym, ap, ◌∙◌, ◌⊎◌, inl, inr, Bool, true, false, ◌&&◌, Option, none,
  some, List, [], ◌∷◌,
}
use go_txnpure.Allow.{bump_call, bumped, note_declared, count_or_new, declare}
use go_txnpure.Check.{
  CheckConfig, Verdict, covered, declined, verdict, conclude, decide_and_report, emit_violation,
}
use go_txnpure.Check.Preserves.{Tolerant, VerdictKeeps, verdict-VerdictKeeps}
use go_txnpure.Identity.{Op, ViolationKey, key_Eq, key_eq, key_eq_iff, key_of}
use go_txnpure.State.{Env, CallCount, Scope, World, Detector, put_scope, report}

-- The number of calls that a scope has counted for an identity.
abbrev pub calls_made : ViolationKey → Scope → ℤ
calls_made key s = (count_or_new (lookup key s.calls)).n

-- Every counter of every scope is the same.
pub record SameCalls (w w' : World) : Type 0 where
  pub counts :
      (key : ViolationKey) (j : ℕ) → calls_made key (w'.scope_at j) ≡ calls_made key (w.scope_at j)

calls_made-put_scope :
    (i : ℕ) (s : Scope) (w : World) (key : ViolationKey)
    → calls_made key s ≡ calls_made key (w.scope_at i)
    → (j : ℕ) → calls_made key ((put_scope i s w).scope_at j) ≡ calls_made key (w.scope_at j)
calls_made-put_scope i s w key h j = at (Bool-cases (i == j))
  where
    at :
        ((i == j) ≡ true) ⊎ ((i == j) ≡ false)
        → calls_made key (if i == j then s else w.scope_at j) ≡ calls_made key (w.scope_at j)
    at (inl hit) = rw hit (h ∙ ap (λ k. calls_made key (w.scope_at k)) ((==_iff i j).0 hit))
    at (inr miss) = rw miss refl

-- An entry that keeps its count.
calls_made-redeclared :
    (key key' : ViolationKey) (c : CallCount) (counts : List ℤ) (reason : Bytes) (s : Scope)
    → lookup key s.calls ≡ some c
    → calls_made key'
        (record s { calls = insert key (record c { declared = counts; reason = reason }) s.calls })
      ≡ calls_made key' s
calls_made-redeclared key key' c counts reason s h =
    ap (λ o. (count_or_new o).n)
      (lookup-insert key key' (record c { declared = counts; reason = reason }) s.calls)
    ∙ at (key_eq key key') refl
  where
    at :
        (b : Bool)
        → key_eq key key' ≡ b
        → (count_or_new (
            if b
            then some (record c { declared = counts; reason = reason })
            else lookup key' s.calls)).n
          ≡ calls_made key' s
    at true e =
        ap (λ o. (count_or_new o).n) (sym h) ∙ ap (λ k. calls_made k s) ((key_eq_iff key key').0 e)
    at false e = refl

SameCalls-note_declared :
    (i : ℕ) (key : ViolationKey) (counts : List ℤ) (reason : Bytes) (w : World)
    → SameCalls w (note_declared i key counts reason w)
unfolding note_declared
SameCalls-note_declared i key [] reason w = record { counts = λ key' j. refl }
SameCalls-note_declared i key (c ∷ counts) reason w = at (lookup key (w.scope_at i).calls) refl
  where
    at :
        (o : Option CallCount)
        → lookup key (w.scope_at i).calls ≡ o
        → SameCalls w (declare i key (c ∷ counts) reason w o)
    at none e = record { counts = λ key' j. refl }
    at (some a) e = record {
      counts = λ key' j.
          calls_made-put_scope i _ w key'
            (calls_made-redeclared key key' a (c ∷ counts) reason (w.scope_at i) e) j;
    }

pub SameCalls-Tolerant : Tolerant SameCalls
SameCalls-Tolerant = record {
  same = λ w. record { counts = λ key j. refl };
  chain = λ u v w p q. record { counts = λ key j. q.counts key j ∙ p.counts key j };
  note = SameCalls-note_declared;
  mark = λ m a w. record { counts = λ key j. refl };
  list = λ a w. record { counts = λ key j. refl };
}

-- What the counter of an identity in a scope is after a call.
abbrev pub one_more : Bool → ℤ → ℤ
one_more hit n = if hit then inc64 n else n

calls_made-bumped :
    (key key' : ViolationKey) (s : Scope)
    → calls_made key' (record s { calls = insert key (bumped key s) s.calls })
      ≡ one_more (key_eq key key') (calls_made key' s)
unfolding bumped
calls_made-bumped key key' s =
    ap (λ o. (count_or_new o).n) (lookup-insert key key' (bumped key s) s.calls)
    ∙ at (key_eq key key') refl
  where
    at :
        (b : Bool)
        → key_eq key key' ≡ b
        → (count_or_new (if b then some (bumped key s) else lookup key' s.calls)).n
          ≡ one_more b (calls_made key' s)
    at true e = ap (λ k. inc64 (calls_made k s)) ((key_eq_iff key key').0 e)
    at false e = refl

pub calls_made-bump_call :
    (i : ℕ) (key : ViolationKey) (w : World) (key' : ViolationKey) (j : ℕ)
    → calls_made key' ((bump_call i key w).1.scope_at j)
      ≡ one_more ((i == j) && key_eq key key') (calls_made key' (w.scope_at j))
unfolding bump_call
calls_made-bump_call i key w key' j = at (Bool-cases (i == j))
  where
    s : Scope
    s = record (w.scope_at i) {
      calls = insert key (bumped key (w.scope_at i)) (w.scope_at i).calls;
    }

    at :
        ((i == j) ≡ true) ⊎ ((i == j) ≡ false)
        → calls_made key' (if i == j then s else w.scope_at j)
          ≡ one_more ((i == j) && key_eq key key') (calls_made key' (w.scope_at j))
    at (inl hit) = rw hit (
        calls_made-bumped key key' (w.scope_at i)
        ∙ ap (λ k. one_more (key_eq key key') (calls_made key' (w.scope_at k)))
            ((==_iff i j).0 hit))
    at (inr miss) = rw miss refl

-- A call with an open transaction counts once for its identity in its scope, whatever tiers are
-- present and whatever they say; every other counter of every scope stays as it is.
pub decide_and_report-calls_made :
    (d : Detector) (env : Env) (i : ℕ) (mark : Option ℕ) (op : Op) (open_now : ℤ)
    (cfg : CheckConfig) (w : World) (key : ViolationKey) (j : ℕ)
    → calls_made key ((decide_and_report d env i mark op open_now cfg w).scope_at j)
      ≡ one_more
          ((i == j) && key_eq (key_of (w.scope_at i).name op) key)
          (calls_made key (w.scope_at j))
unfolding decide_and_report emit_violation report
decide_and_report-calls_made d env i mark op open_now cfg w key j =
    concluded (verdict i mark op k cfg w')
      (verdict-VerdictKeeps SameCalls SameCalls-Tolerant i mark op k cfg w')
    ∙ calls_made-bump_call i own w key j
  where
    own : ViolationKey
    own = key_of (w.scope_at i).name op

    k : ℤ
    k = (bump_call i own w).0

    w' : World
    w' = (bump_call i own w).1

    concluded :
        (v : Verdict)
        → VerdictKeeps SameCalls w' v
        → calls_made key ((conclude d env i op open_now k cfg.attrs v).scope_at j)
          ≡ calls_made key (w'.scope_at j)
    concluded (covered u) p = p.counts key j
    concluded (declined counts u) p = p.counts key j
