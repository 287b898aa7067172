-- ===== src/Check/Race.antt =====
-- check.go and allow.go: calls of several goroutines, cut where another goroutine may come in. Each
-- step takes one lock or does one atomic operation; the loop over the reporters is one step.
pub mod Alone
pub mod Counting
pub mod Handed
use go_txnpure.Base.{
  bool_laws, or-false, or-true, or_assoc, and-false, ltb, leb, ◌==◌, if◌then◌else◌, ==_iff,
  Bool-cases, Option-cases, &&-true, length, get_or, get_elem?, set, take, drop, any, All,
  length-append, length-set, length-drop-le, take-append-drop, All-append, ℤ, pos, negsuc, pos_part,
  neg_part, sub_ℕ, ◌≤ℤ◌, leb_ℤ, eq_ℤ, max_int64, inc64, dec64, inc64-pos, dec64-pos, eq_ℤ_iff, Eq,
  nat_eq, Bytes, IsBytes, codes, bytes_eq, bytes_eq_refl, bytes_eq_iff, bytes_Eq, bytes_lt,
  to_upper, to_lower, lookup, insert, lookup-insert, update, insert_by, sort_by, count,
  count-sort_by, ℕ, zero, suc, ◌+◌, ◌-◌, ◌*◌, ◌/◌, ◌%◌, ◌^◌, ◌≤◌, ◌<◌, ◌≡◌, refl, sym, ap, ◌∙◌,
  fun_ext, ◌≢◌, ◌↔◌, ◌⊎◌, inl, inr, Bool, true, false, not, ◌&&◌, ◌||◌, Option, none, some, List,
  [], ◌∷◌, ◌++◌, map, arith,
}
use go_txnpure.Allow.{bump_call}
use go_txnpure.Allowlist.{Decision, decide}
use go_txnpure.Check.{
  CheckConfig, Verdict, covered, declined, call_site, region, listed_by, emit_violation,
}
use go_txnpure.Identity.{Op, ViolationKey, key_of}
use go_txnpure.State.{Env, Allowlist, World, Detector}

-- The arguments of `decideAndReport`.
pub record Event : Type 0 where
  pub env : Env
  pub scope : ℕ
  pub mark : Option ℕ
  pub op : Op
  pub open_now : ℤ
  pub cfg : CheckConfig

-- What is next, with the counts that have declined so far.
pub data Stage : Type 0 where
  at_site : Stage
  at_region : List ℤ → Stage
  at_list : List ℤ → Stage
  answered : List ℤ → Option Decision → Stage
  uncovered : List ℤ → Stage
  ended : Stage

-- The call has not counted yet, or it has: with the identity and the number in its local variables.
pub data Progress : Type 0 where
  arrived : Progress
  counted : ViolationKey → ℤ → Stage → Progress

abbrev pub follow : (List ℤ → Stage) → Verdict → Stage × World
follow next (covered w) = (ended, w)
follow next (declined counts w) = (next counts, w)

-- The answer of the list is a step, and so is the note of what it declares.
abbrev pub ask_list : Event → ViolationKey → ℤ → List ℤ → World → Option Allowlist → Stage × World
ask_list c key k counts w none = (uncovered counts, w)
ask_list c key k counts w (some a) =
    let (e, a') = decide a (w.scope_at c.scope).name c.op k in
    (answered counts e, record w { allowlist = some a' })

unfoldable pub advance_stage : Detector → Event → ViolationKey → ℤ → Stage → World → Stage × World
unfolding call_site region decide emit_violation
advance_stage d c key k at_site w = follow at_region (call_site c.cfg c.scope key k w)
advance_stage d c key k (at_region counts) w = follow at_list (region c.mark (counts, w))
advance_stage d c key k (at_list counts) w = ask_list c key k counts w w.allowlist
advance_stage d c key k (answered counts e) w = follow uncovered (listed_by c.scope key counts w e)
advance_stage d c key k (uncovered counts) w =
    (ended, emit_violation d c.env c.scope c.op c.open_now k counts c.cfg.attrs w)
advance_stage d c key k ended w = (ended, w)

abbrev pub in_stage : ViolationKey → ℤ → Stage × World → Progress × World
in_stage key k (st, w) = (counted key k st, w)

unfoldable pub advance : Detector → Event → Progress → World → Progress × World
unfolding bump_call advance_stage
advance d c arrived w =
    let key = key_of (w.scope_at c.scope).name c.op in
    let (k, w') = bump_call c.scope key w in (counted key k at_site, w')
advance d c (counted key k st) w = in_stage key k (advance_stage d c key k st w)

abbrev pub Goroutines : Type 0
Goroutines = List (Event × Progress)

-- One step of the n-th goroutine, if there is one.
unfoldable pub step_at : Detector → ℕ → Goroutines → World → Goroutines × World
unfolding advance
step_at d n [] w = ([], w)
step_at d zero ((c, p) ∷ gs) w = let (p', w') = advance d c p w in ((c, p') ∷ gs, w')
step_at d (suc n) (g ∷ gs) w = let (gs', w') = step_at d n gs w in (g ∷ gs', w')

-- A schedule says which goroutine takes each step.
unfoldable pub interleave : Detector → List ℕ → Goroutines → World → Goroutines × World
unfolding step_at
interleave d [] gs w = (gs, w)
interleave d (n ∷ schedule) gs w = let (gs', w') = step_at d n gs w in interleave d schedule gs' w'

abbrev pub start_all : List Event → Goroutines
start_all [] = []
start_all (c ∷ cs) = (c, arrived) ∷ start_all cs
