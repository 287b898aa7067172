-- ===== src/Lib.antt =====
-- A model of txnpure, a library that reports external calls made inside a database transaction.
--
-- The program watches transactions through wrapped database drivers (driver.go) or sessions
-- (session.go) and counts, in a scope that travels on the context (detector.go), how many are open.
-- A checkpoint (check.go, roundtripper.go, grpc/interceptor.go) reads the counter; if it is positive,
-- the call passes three tiers that can allow it (check.go, allow.go, allowlist.go) or is reported as
-- a violation. Reports go through reporters (reporter.go), which a baseline filters (baseline.go) and
-- a throttle thins out (throttle.go). Statements are recognised by their text (classify.go). A null
-- database (nulldb.go) serves for tests, and a command of its own (internal/benchgate/main.go)
-- compares the benchmarks of two commits.
--
-- Files and what they model:
--   Base            Booleans, lists, machine integers, byte strings, association lists, heaps
--   Classify        classify.go: DefaultClassifier. Classify/Scan has stripLeading, tokenIs and
--                   containsWriteToken, Classify/Target has writeTarget and crossConnOpName
--                   (driver.go)
--   Identity        Op (check.go), ViolationKey (reporter.go), sortKeys (allowlist.go), identityKey
--                   (throttle.go)
--   Stack           stack.go: captureStack, over the frames that the runtime yields
--   Report          reporter.go and attrs.go: the records that reporters receive; Report/Text has
--                   String of a violation, joinCounts and stackStrings
--   Baseline        baseline.go; Baseline/Files has Save and LoadBaseline
--   Throttle        throttle.go
--   Format          what fmt and strconv print of an integer
--   Slog            SlogReporter (reporter.go) and SlogAttrs (attrs.go)
--   Reporter        the tree of reporters: collecting, logging, baseline, throttle, and any reporter
--                   of an application with the optional interfaces it has; Reporter/Required has
--                   the getters, Reset and the Require helpers of the collecting reporter
--   State           the store: scopes and allow regions behind addresses, the allowlist, the
--                   reporters, and the fixed fields of a Detector
--   Allow           allow.go: AllowInTransactionHere, bumpCall, noteDeclared, coversCalls,
--                   reportCallShortfalls
--   Allowlist       allowlist.go: Add, decide, UnusedEntries
--   Check           check.go: Check, decideAndReport, runStatementCheckers, reportStatementOps;
--                   Check/Race cuts decideAndReport into steps that goroutines take in any order
--   Session         session.go: Observe, BeginTx, EndTx, reportIfCrossConn
--   Detector        detector.go: New, StartScope, InScope, finishScope; Do (check.go), RoundTrip
--                   (roundtripper.go) and the interceptors (grpc/interceptor.go);
--                   Detector/Transport has WrapRoundTripper
--   Driver          driver.go. Driver/Below has what the wrapper calls of the driver below it,
--                   Driver/Stmt has wrapStmt and the observation of a statement, Driver/Conn the
--                   methods of connections, transactions and statements, Driver/Forward the wrapped
--                   driver and connector and the methods that only ask the driver below, Driver/Null
--                   models nulldb.go. Driver/Fallback and Driver/Retry have what database/sql does
--                   around a statement: it prepares one that is skipped, and tries another
--                   connection when one is bad
--   System          any number of scopes, contexts and connections, and a history of calls, each of
--                   which is one step
--   Examples        examples/enqueue/main.go (Examples/Orders) and examples/nethttp/main.go
--                   (Examples/Checkout)
--   Benchgate       internal/benchgate/main.go: Benchgate/Parse has parse and stripProcs,
--                   Benchgate/Compare has compare and the statistics, Benchgate/Main the command
--   Tests           runs on concrete inputs
--
-- How state and operations correspond: a pointer to a scope or to an allow region is an address in a
-- heap of the World, a context is the chain of its WithValue layers, and an operation takes the World
-- and returns it changed. Atomic counters wrap at 64 bits (inc64, dec64). A call of the library is
-- one step of a history, in the order in which the calls take effect. Only Check/Race goes below
-- that: there a step of a goroutine is one atomic operation, what one lock guards, or the report to
-- all reporters, and a schedule says whose turn it is. Time, clock and stack of a call are given by
-- its Env.
--
-- Bounds and fuel: a history has fewer than 2^63 calls, so no counter overflows. The loop of
-- stripLeading runs on fuel, the length of the query plus one; each round that goes on drops a byte
-- or more. Go strings are lists of bytes.
--
-- Other files hold proofs: Classify/Reference has the keyword table, Check/Tiers the list of tiers
-- that are present, Throttle/Keys one key by itself, Check/Race/Alone the steps of a goroutine that
-- nobody disturbs, Driver/Null/Script a program on the null database and its session by itself,
-- System/Ledger the abstract machine of contexts and connections that the library refines.
--
-- Not modelled: the end-to-end tests, the build tools and the package documentation. Locks have no
-- state of their own. A race of the end of a scope with a call, inside either, is not modelled.
-- Parameters are the database, the transport below RoundTrip, the gRPC invoker, matchers and
-- classifiers of an application, the file system and encoding/json, the verb %q of fmt, and float64
-- with its text. Upper case, blanks and fields of a text are those of ASCII.
pub mod Base
pub mod Classify
pub mod Identity
pub mod Stack
pub mod Report
pub mod Baseline
pub mod Format
pub mod Throttle
pub mod Slog
pub mod Reporter
pub mod State
pub mod Allow
pub mod Allowlist
pub mod Check
pub mod Session
pub mod Detector
pub mod Driver
pub mod System
pub mod Examples
pub mod Benchgate
pub mod Tests
