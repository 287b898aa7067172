-- ===== src/Detector.antt =====
-- detector.go: `New` with its options, the life of a scope, and the adapters: `Do`, the HTTP
-- transport of roundtripper.go and the interceptors of grpc/interceptor.go.
pub mod RoundTrip
pub mod Finish
pub mod Transport
use go_txnpure.Base.{
  if◌then◌else◌, ℤ, pos, leb_ℤ, nat_eq, Bytes, codes, bytes_Eq, ℕ, ◌+◌, true, false, not, ◌&&◌,
  Option, none, some, List, [], ◌∷◌, ◌++◌,
}
use go_txnpure.Allow.{report_call_shortfalls}
use go_txnpure.Check.{CheckOption, check, check_needed}
use go_txnpure.Classify.{StatementKind, default_classifier}
use go_txnpure.Identity.{Op}
use go_txnpure.Report.{ScopeAttr, nested_scope, leaked_tx}
use go_txnpure.Reporter.{Reporter}
use go_txnpure.State.{
  Env, Context, with_scope, scope_from, AllowMark, Scope, Allowlist, World, Detector, put_scope,
  report,
}

-- The options of `New`.
pub data DetectorOption : Type 0 where
  with_reporter : List Reporter → DetectorOption
  with_allowlist : Allowlist → DetectorOption
  with_classifier : (Bytes → StatementKind) → DetectorOption
  with_statement_checker : List (Bytes → Option Op) → DetectorOption
  with_unscoped_tx_detection : DetectorOption
  with_unscoped_check_detection : DetectorOption
  with_nested_scope_detection : DetectorOption
  with_leaked_tx_detection : DetectorOption
  with_stack_depth : ℤ → DetectorOption
  with_scope_attrs_func : (Context → List ScopeAttr) → DetectorOption

unfoldable pub apply_option : DetectorOption → Detector × World → Detector × World
apply_option (with_reporter rs) (d, w) = (d, record w { reporters = w.reporters ++ rs })
apply_option (with_allowlist a) (d, w) = (d, record w { allowlist = some a })
apply_option (with_classifier c) (d, w) = (record d { classify = c }, w)
apply_option (with_statement_checker cs) (d, w) =
    (record d { stmt_checkers = d.stmt_checkers ++ cs }, w)
apply_option with_unscoped_tx_detection (d, w) = (record d { report_unscoped = true }, w)
apply_option with_unscoped_check_detection (d, w) = (record d { report_unscoped_check = true }, w)
apply_option with_nested_scope_detection (d, w) = (record d { report_nested = true }, w)
apply_option with_leaked_tx_detection (d, w) = (record d { report_leaked = true }, w)
apply_option (with_stack_depth n) (d, w) = (record d { stack_depth = n }, w)
apply_option (with_scope_attrs_func f) (d, w) = (record d { attrs_func = some f }, w)

unfoldable pub apply_options : List DetectorOption → Detector × World → Detector × World
apply_options [] s = s
apply_options (o ∷ opts) s = apply_options opts (apply_option o s)

abbrev pub blank_scope : Scope
blank_scope = record {
  name = [];
  attrs = [];
  open_txs = pos 0;
  finished = false;
  calls = [];
  marks = [];
}

abbrev pub blank_mark : AllowMark
blank_mark = record { reason = []; counts = []; n = pos 0 }

-- No scope and no region is allocated yet.
abbrev pub empty_world : World
empty_world = record {
  scope_at = λ i. blank_scope;
  next_scope = 0;
  mark_at = λ i. blank_mark;
  next_mark = 0;
  allowlist = none;
  reporters = [];
}

abbrev pub default_detector : Detector
default_detector = record {
  classify = default_classifier;
  stmt_checkers = [];
  attrs_func = none;
  report_unscoped = false;
  report_unscoped_check = false;
  report_nested = false;
  report_leaked = false;
  stack_depth = pos 32;
}

-- `New`, in a program that has done nothing else yet.
unfoldable pub new : List DetectorOption → Detector × World
unfolding apply_option apply_options
new opts = apply_options opts (default_detector, empty_world)

abbrev pub report_nesting : Detector → Env → Bytes → World → Option ℕ → World
report_nesting d env name w none = w
report_nesting d env name w (some outer) =
    if d.report_nested
    then report env
        (nested_scope (record { outer = (w.scope_at outer).name; inner = name; time = env.time })) w
    else w

abbrev pub detector_attrs : Option (Context → List ScopeAttr) → Context → List ScopeAttr
detector_attrs none ctx = []
detector_attrs (some f) ctx = f ctx

-- The options of a scope are WithScopeAttrs: each appends its attributes.
unfoldable pub apply_scope_options : List (List ScopeAttr) → Scope → Scope
apply_scope_options [] s = s
apply_scope_options (attrs ∷ opts) s =
    apply_scope_options opts (record s { attrs = s.attrs ++ attrs })

-- The context with the new scope. Its finish function is `finish_scope` at the scope's address.
unfoldable pub start_scope :
    Detector → Env → Context → Bytes → List (List ScopeAttr) → World → Context × World
unfolding scope_from apply_scope_options report
start_scope d env ctx name opts w =
    let w' = report_nesting d env name w (scope_from ctx) in
    let s =
      apply_scope_options opts
        (record blank_scope { name = name; attrs = detector_attrs d.attrs_func ctx }) in
    (
      with_scope w'.next_scope ctx,
      record (put_scope w'.next_scope s w') { next_scope = w'.next_scope + 1 },
    )

unfoldable pub report_leak : Detector → Env → ℕ → World → World
unfolding report
report_leak d env i w =
    let s = w.scope_at i in
    if d.report_leaked && not (leb_ℤ s.open_txs (pos 0))
    then report env (leaked_tx (record { scope = s.name; open_txs = s.open_txs; time = env.time }))
        w
    else w

-- The second call of a finish function does nothing.
unfoldable pub finish_scope : Detector → Env → ℕ → World → World
unfolding report_call_shortfalls report_leak
finish_scope d env i w =
    let s = w.scope_at i in
    if s.finished
    then w
    else (let w' = put_scope i (record s { finished = true }) w in
        report_leak d env i (report_call_shortfalls env i w'))

-- `Do`: the call `f` runs whatever the check says.
unfoldable pub do_checked {ℓ} :
    {R : Type ℓ}
    → Detector
    → Env
    → Context
    → Op
    → (Context → World → R × World)
    → List CheckOption
    → World
    → R × World
unfolding check
do_checked d env ctx op f opts w = f ctx (check d env ctx op opts w)

-- `InScope`; `later` is what the runtime gives the deferred finish.
unfoldable pub in_scope {ℓ} :
    {R : Type ℓ}
    → Detector
    → Env
    → Env
    → Context
    → Bytes
    → (Context → World → R × World)
    → List (List ScopeAttr)
    → World
    → R × World
unfolding start_scope finish_scope
in_scope d env later ctx name f opts w =
    let (sctx, w1) = start_scope d env ctx name opts w in
    let (r, w2) = f sctx w1 in (r, finish_scope d later w.next_scope w2)

-- The parts of an `http.Request` that the library reads.
pub record Request : Type 0 where
  pub context : Context
  pub http_method : Bytes
  pub url_host : Bytes
  pub host : Bytes

abbrev host_or : Bytes → Bytes → Bytes
host_or [] host = host
host_or (c ∷ url_host) host = c ∷ url_host

unfoldable pub default_request_name : Request → Bytes
default_request_name req = req.http_method ++ (b' ' ∷ host_or req.url_host req.host)

abbrev pub http_op : Bytes → Op
http_op name = record { kind = codes "http"; name = name }

-- `RoundTrip` of the wrapped transport; `send` is the transport below it.
unfoldable pub round_trip {ℓ} :
    {R : Type ℓ}
    → Detector
    → Env
    → (Request → Bytes)
    → (Request → World → R × World)
    → Request
    → World
    → R × World
unfolding check_needed check
round_trip d env name send req w =
    send req (
      if check_needed d req.context w then check d env req.context (http_op (name req)) [] w else w)

abbrev pub grpc_op : Bytes → Op
grpc_op rpc = record { kind = codes "grpc"; name = rpc }

-- Both client interceptors: the check, then the invoker or the streamer.
unfoldable pub intercept {ℓ} :
    {R : Type ℓ}
    → Detector
    → Env
    → Context
    → Bytes
    → (Context → World → R × World)
    → World
    → R × World
unfolding check
intercept d env ctx rpc invoke w = invoke ctx (check d env ctx (grpc_op rpc) [] w)
