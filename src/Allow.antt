-- ===== src/Allow.antt =====
-- allow.go: allow regions, the call counts of a scope, and the reports at its end.
pub mod Counts
pub mod Coverage
pub mod Ordering
use go_txnpure.Base.{
  if◌then◌else◌, ℤ, pos, leb_ℤ, inc64, nat_eq, Bytes, bytes_Eq, lookup, insert, ℕ, ◌+◌, Bool, not,
  ◌&&◌, Option, none, some, List, [], ◌∷◌, ◌++◌,
}
use Counts.{max_count, contains_count}
use go_txnpure.Identity.{Op, ViolationKey, key_Eq, sort_keys}
use go_txnpure.Report.{StaleAllow, stale_allow, no_op}
use go_txnpure.State.{
  Env, Context, with_allowed, scope_from, CallCount, AllowMark, Scope, World, put_scope, put_mark,
  report,
}

unfoldable pub report_stale_allow : Env → StaleAllow → World → World
unfolding report
report_stale_allow env s w = report env (stale_allow s) w

abbrev register_mark : ℕ → ℕ → World → World
register_mark i m w =
    put_scope i (record (w.scope_at i) { marks = (w.scope_at i).marks ++ m ∷ [] }) w

abbrev new_mark : Bytes → List ℤ → World → World
new_mark reason counts w =
    record (put_mark w.next_mark (record { reason = reason; counts = counts; n = pos 0 }) w) {
      next_mark = w.next_mark + 1;
    }

-- Only a region with counts is registered on the scope.
abbrev pub allow_in_scope : Context → Bytes → List ℤ → World → Option ℕ → Context × World
allow_in_scope ctx reason counts w none = (ctx, w)
allow_in_scope ctx reason [] w (some i) = (with_allowed i w.next_mark ctx, new_mark reason [] w)
allow_in_scope ctx reason (c ∷ counts) w (some i) =
    (with_allowed i w.next_mark ctx, register_mark i w.next_mark (new_mark reason (c ∷ counts) w))

unfoldable pub allow_in_transaction_here : Context → Bytes → List ℤ → World → Context × World
unfolding scope_from
allow_in_transaction_here ctx reason exact_calls w =
    allow_in_scope ctx reason exact_calls w (scope_from ctx)

abbrev pub count_or_new : Option CallCount → CallCount
count_or_new none = record { n = pos 0; declared = []; reason = [] }
count_or_new (some c) = c

-- The entry of an identity after one more call.
unfoldable pub bumped : ViolationKey → Scope → CallCount
unfolding inc64
bumped key s = let c = count_or_new (lookup key s.calls) in record c { n = inc64 c.n }

-- The new count, and the world that holds it.
unfoldable pub bump_call : ℕ → ViolationKey → World → ℤ × World
unfolding bumped
bump_call i key w =
    let s = w.scope_at i in
    let c = bumped key s in (c.n, put_scope i (record s { calls = insert key c s.calls }) w)

abbrev pub declare : ℕ → ViolationKey → List ℤ → Bytes → World → Option CallCount → World
declare i key counts reason w none = w
declare i key counts reason w (some c) =
    let s = w.scope_at i in
    put_scope i
      (record s { calls = insert key (record c { declared = counts; reason = reason }) s.calls }) w

unfoldable pub note_declared : ℕ → ViolationKey → List ℤ → Bytes → World → World
note_declared i key [] reason w = w
note_declared i key (c ∷ counts) reason w =
    declare i key (c ∷ counts) reason w (lookup key (w.scope_at i).calls)

-- A total that no declared count is equal to; one above them all has shown in its violations.
unfoldable pub falls_short : List ℤ → ℤ → Bool
unfolding max_count contains_count
falls_short counts n = leb_ℤ n (max_count counts) && not (contains_count counts n)

unfoldable pub declared_keys : List (ViolationKey × CallCount) → List ViolationKey
declared_keys [] = []
declared_keys ((key, c) ∷ calls) =
    let rest = declared_keys calls in elim c.declared [ [] ↦ rest | d ∷ ds ↦ key ∷ rest ]

abbrev pub stale_call : Scope → ViolationKey → CallCount → StaleAllow
stale_call s key c = record {
  scope = s.name;
  op = record { kind = key.kind; name = key.name };
  reason = c.reason;
  calls = c.n;
  allowed_calls = c.declared;
}

unfoldable pub stale_calls : Scope → List ViolationKey → List StaleAllow
unfolding falls_short
stale_calls s [] = []
stale_calls s (key ∷ keys) =
    let c = count_or_new (lookup key s.calls) in
    if falls_short c.declared c.n
    then stale_call s key c ∷ stale_calls s keys
    else stale_calls s keys

abbrev pub stale_mark : Scope → AllowMark → StaleAllow
stale_mark s m = record {
  scope = s.name;
  op = no_op;
  reason = m.reason;
  calls = m.n;
  allowed_calls = m.counts;
}

unfoldable pub stale_marks : Scope → (ℕ → AllowMark) → List ℕ → List StaleAllow
unfolding falls_short
stale_marks s mark_at [] = []
stale_marks s mark_at (m ∷ marks) =
    if falls_short (mark_at m).counts (mark_at m).n
    then stale_mark s (mark_at m) ∷ stale_marks s mark_at marks
    else stale_marks s mark_at marks

-- The shortfalls of a finishing scope: by identity in sorted order, then by region.
unfoldable pub shortfalls : Scope → (ℕ → AllowMark) → List StaleAllow
unfolding declared_keys stale_calls stale_marks sort_keys
shortfalls s mark_at =
    stale_calls s (sort_keys (declared_keys s.calls)) ++ stale_marks s mark_at s.marks

unfoldable pub report_all : Env → List StaleAllow → World → World
unfolding report_stale_allow
report_all env [] w = w
report_all env (s ∷ stale) w = report_all env stale (report_stale_allow env s w)

unfoldable pub report_call_shortfalls : Env → ℕ → World → World
unfolding report_all shortfalls
report_call_shortfalls env i w = report_all env (shortfalls (w.scope_at i) w.mark_at) w
