-- ===== src/Check.antt =====
-- check.go: checkpoints, the allow tiers and the statement checkers.
pub mod Tiers
pub mod Says
pub mod Reported
pub mod Preserves
pub mod Calls
pub mod Numbering
pub mod Race
pub mod Totals
pub mod Undeclared
use go_txnpure.Base.{
  if◌then◌else◌, ℤ, pos, leb_ℤ, inc64, nat_eq, Bytes, bytes_Eq, ℕ, Bool, true, false, not, Option,
  none, some, List, [], ◌∷◌, ◌++◌,
}
use go_txnpure.Allow.Counts.{covers_calls}
use go_txnpure.Allow.{bump_call, note_declared, report_stale_allow}
use go_txnpure.Allowlist.{Decision, decide}
use go_txnpure.Identity.{Op, ViolationKey, key_of}
use go_txnpure.Report.{ScopeAttr, Violation, violation, unscoped_check}
use go_txnpure.Stack.{capture_stack}
use go_txnpure.State.{
  Env, Context, scope_and_mark_from, Scope, Allowlist, World, Detector, put_mark, report,
}

pub record CheckConfig : Type 0 where
  pub allowed : Bool
  pub allow_reason : Bytes
  pub allow_counts : List ℤ
  pub attrs : List ScopeAttr

abbrev pub no_config : CheckConfig
no_config = record { allowed = false; allow_reason = []; allow_counts = []; attrs = [] }

-- AllowInTransaction and WithCheckAttrs.
pub data CheckOption : Type 0 where
  allow_in_transaction : Bytes → List ℤ → CheckOption
  with_check_attrs : List ScopeAttr → CheckOption

apply_option : CheckOption → CheckConfig → CheckConfig
apply_option (allow_in_transaction reason exact_calls) c = record c {
  allowed = true;
  allow_reason = reason;
  allow_counts = exact_calls;
}
apply_option (with_check_attrs attrs) c = record c { attrs = c.attrs ++ attrs }

unfoldable pub fold_options : List CheckOption → CheckConfig → CheckConfig
unfolding apply_option
fold_options [] c = c
fold_options (o ∷ opts) c = fold_options opts (apply_option o c)

unfoldable pub applied_check_config : List CheckOption → CheckConfig
unfolding fold_options
applied_check_config opts = fold_options opts no_config

-- The violation that `emitViolation` assembles.
unfoldable pub make_violation :
    Detector → Env → Scope → Op → ℤ → ℤ → List ℤ → List ScopeAttr → Violation
unfolding capture_stack
make_violation d env s op open_now call allowed_calls check_attrs = record {
  op = op;
  scope = s.name;
  open_txs = open_now;
  call = call;
  allowed_calls = allowed_calls;
  stack = capture_stack d.stack_depth env.callers;
  attrs = s.attrs ++ check_attrs;
  time = env.time;
}

unfoldable pub emit_violation :
    Detector → Env → ℕ → Op → ℤ → ℤ → List ℤ → List ScopeAttr → World → World
unfolding make_violation report
emit_violation d env i op open_now call allowed_calls check_attrs w =
    report env
      (violation (make_violation d env (w.scope_at i) op open_now call allowed_calls check_attrs)) w

-- What a tier says of a call: it covers the call, or the tiers so far have declined with these
-- counts.
pub data Verdict : Type 0 where
  covered : World → Verdict
  declined : List ℤ → World → Verdict

-- The tiers in turn: a tier is asked only if those in front of it decline.
infixl 5 ◌>>=◌
abbrev pub ◌>>=◌ : Verdict → (List ℤ × World → Verdict) → Verdict
covered w >>= tier = covered w
declined counts w >>= tier = tier (counts, w)

-- AllowInTransaction.
unfoldable pub call_site : CheckConfig → ℕ → ViolationKey → ℤ → World → Verdict
unfolding note_declared covers_calls
call_site cfg i key k w =
    if cfg.allowed
    then (let w' = note_declared i key cfg.allow_counts cfg.allow_reason w in
        if covers_calls cfg.allow_counts k then covered w' else declined cfg.allow_counts w')
    else declined [] w

-- AllowInTransactionHere: the region counts every call that reaches it.
unfoldable pub region : Option ℕ → List ℤ × World → Verdict
unfolding covers_calls inc64
region none (counts, w) = declined counts w
region (some m) (counts, w) =
    let mark = w.mark_at m in
    let n = inc64 mark.n in
    let w' = put_mark m (record mark { n = n }) w in
    if covers_calls mark.counts n then covered w' else declined (counts ++ mark.counts) w'

abbrev pub listed_by : ℕ → ViolationKey → List ℤ → World → Option Decision → Verdict
listed_by i key counts w none = declined counts w
listed_by i key counts w (some e) =
    let w' = note_declared i key e.counts e.reason w in
    if e.covered then covered w' else declined (counts ++ e.counts) w'

-- The Allowlist, if there is one.
abbrev pub listed_in : ℕ → Op → ViolationKey → ℤ → List ℤ × World → Option Allowlist → Verdict
listed_in i op key k (counts, w) none = declined counts w
listed_in i op key k (counts, w) (some a) =
    let (e, a') = decide a (w.scope_at i).name op k in
    listed_by i key counts (record w { allowlist = some a' }) e

unfoldable pub listed : ℕ → Op → ViolationKey → ℤ → List ℤ × World → Verdict
unfolding decide note_declared
listed i op key k (counts, w) = listed_in i op key k (counts, w) w.allowlist

-- No tier covers the call: it is reported with the counts that declined.
abbrev pub conclude : Detector → Env → ℕ → Op → ℤ → ℤ → List ScopeAttr → Verdict → World
conclude d env i op open_now k attrs (covered w) = w
conclude d env i op open_now k attrs (declined counts w) =
    emit_violation d env i op open_now k counts attrs w

unfoldable pub verdict : ℕ → Option ℕ → Op → ℤ → CheckConfig → World → Verdict
unfolding call_site region listed
verdict i mark op k cfg w =
    let key = key_of (w.scope_at i).name op in
    do asked ← call_site cfg i key k w; asked' ← region mark asked; listed i op key k asked'

unfoldable pub decide_and_report :
    Detector → Env → ℕ → Option ℕ → Op → ℤ → CheckConfig → World → World
unfolding bump_call verdict emit_violation
decide_and_report d env i mark op open_now cfg w =
    let (k, w') = bump_call i (key_of (w.scope_at i).name op) w in
    conclude d env i op open_now k cfg.attrs (verdict i mark op k cfg w')

-- A report of an allow that ran outside any transaction.
abbrev pub outside : Env → Bytes → Op → Bytes → World → World
outside env scope op reason w =
    report_stale_allow env
      (record { scope = scope; op = op; reason = reason; calls = pos 0; allowed_calls = [] }) w

abbrev pub outside_region : Env → ℕ → Op → Option ℕ → World → World
outside_region env i op none w = w
outside_region env i op (some m) w = outside env (w.scope_at i).name op (w.mark_at m).reason w

abbrev pub outside_call : Env → ℕ → Op → CheckConfig → World → World
outside_call env i op cfg w =
    if cfg.allowed then outside env (w.scope_at i).name op cfg.allow_reason w else w

abbrev pub check_in : Detector → Env → Op → List CheckOption → World → Option (ℕ × Option ℕ) → World
check_in d env op opts w none =
    if d.report_unscoped_check
    then report env
        (unscoped_check
          (record { op = op; stack = capture_stack d.stack_depth env.callers; time = env.time }))
        w
    else w
check_in d env op opts w (some (i, mark)) =
    let cfg = applied_check_config opts in
    let open_now = (w.scope_at i).open_txs in
    if leb_ℤ open_now (pos 0)
    then outside_region env i op mark (outside_call env i op cfg w)
    else decide_and_report d env i mark op open_now cfg w

unfoldable pub check : Detector → Env → Context → Op → List CheckOption → World → World
unfolding scope_and_mark_from applied_check_config decide_and_report report_stale_allow report
check d env ctx op opts w = check_in d env op opts w (scope_and_mark_from ctx)

abbrev pub needed_in : Detector → World → Option (ℕ × Option ℕ) → Bool
needed_in d w none = d.report_unscoped_check
needed_in d w (some (i, none)) = not (leb_ℤ (w.scope_at i).open_txs (pos 0))
needed_in d w (some (i, some m)) = true

unfoldable pub check_needed : Detector → Context → World → Bool
unfolding scope_and_mark_from
check_needed d ctx w = needed_in d w (scope_and_mark_from ctx)

-- Every match of a statement, before any is reported.
abbrev pub match_with : Option Op → List Op → List Op
match_with none ops = ops
match_with (some op) ops = op ∷ ops

unfoldable pub matched_ops : List (Bytes → Option Op) → Bytes → List Op
matched_ops [] query = []
matched_ops (chk ∷ checkers) query = match_with (chk query) (matched_ops checkers query)

-- The bodies of the two loops over the checkers.
abbrev pub decide_match : Detector → Env → ℕ → Option ℕ → ℤ → Option Op → World → World
decide_match d env i mark open_now none w = w
decide_match d env i mark open_now (some op) w =
    decide_and_report d env i mark op open_now no_config w

abbrev pub outside_match : Env → ℕ → ℕ → Option Op → World → World
outside_match env i m none w = w
outside_match env i m (some op) w = outside_region env i op (some m) w

unfoldable pub decide_matches :
    Detector → Env → ℕ → Option ℕ → ℤ → List (Bytes → Option Op) → Bytes → World → World
decide_matches d env i mark open_now [] query w = w
decide_matches d env i mark open_now (chk ∷ checkers) query w =
    decide_matches d env i mark open_now checkers query
      (decide_match d env i mark open_now (chk query) w)

unfoldable pub outside_matches : Env → ℕ → ℕ → List (Bytes → Option Op) → Bytes → World → World
outside_matches env i m [] query w = w
outside_matches env i m (chk ∷ checkers) query w =
    outside_matches env i m checkers query (outside_match env i m (chk query) w)

abbrev pub run_in : Detector → Env → Bytes → World → Option (ℕ × Option ℕ) → World
run_in d env query w none = w
run_in d env query w (some (i, mark)) =
    let open_now = (w.scope_at i).open_txs in
    if leb_ℤ open_now (pos 0)
    then elim mark [ none ↦ w | some m ↦ outside_matches env i m d.stmt_checkers query w ]
    else decide_matches d env i mark open_now d.stmt_checkers query w

unfoldable pub run_statement_checkers : Detector → Env → Context → Bytes → World → World
unfolding scope_and_mark_from decide_matches outside_matches decide_and_report report_stale_allow
run_statement_checkers d env ctx query w = run_in d env query w (scope_and_mark_from ctx)

-- The loops of `reportStatementOps` over the matches of a prepared statement.
unfoldable pub decide_ops : Detector → Env → ℕ → Option ℕ → ℤ → List Op → World → World
decide_ops d env i mark open_now [] w = w
decide_ops d env i mark open_now (op ∷ ops) w =
    decide_ops d env i mark open_now ops (decide_and_report d env i mark op open_now no_config w)

unfoldable pub outside_ops : Env → ℕ → ℕ → List Op → World → World
outside_ops env i m [] w = w
outside_ops env i m (op ∷ ops) w = outside_ops env i m ops (outside_region env i op (some m) w)

abbrev pub report_ops_in : Detector → Env → List Op → World → Option (ℕ × Option ℕ) → World
report_ops_in d env ops w none = w
report_ops_in d env ops w (some (i, mark)) =
    let open_now = (w.scope_at i).open_txs in
    if leb_ℤ open_now (pos 0)
    then elim mark [ none ↦ w | some m ↦ outside_ops env i m ops w ]
    else decide_ops d env i mark open_now ops w

unfoldable pub report_statement_ops : Detector → Env → Context → List Op → World → World
unfolding scope_and_mark_from decide_ops outside_ops decide_and_report report_stale_allow
report_statement_ops d env ctx ops w = report_ops_in d env ops w (scope_and_mark_from ctx)
