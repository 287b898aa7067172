-- ===== src/Benchgate/Compare.antt =====
-- internal/benchgate/main.go: compare and the statistics.
use go_txnpure.Base.{
  ◌==◌, if◌then◌else◌, length, get_or, nat_eq, Bytes, codes, bytes_Eq, bytes_lt, lookup, sort_by, ℕ,
  ◌+◌, ◌-◌, ◌/◌, ◌%◌, Bool, true, false, not, ◌&&◌, ◌||◌, Option, none, some, List, [], ◌∷◌, ◌++◌,
}
use go_txnpure.Benchgate.Float.{Float}
use go_txnpure.Benchgate.Parse.{Samples, Benchmarks}
use go_txnpure.Format.{concat}

abbrev pub keys : {F : Type 0} → Benchmarks F → List Bytes
keys [] = []
keys ((name, s) ∷ m) = name ∷ keys m

-- sort.Strings on the keys. They differ, so any sorting algorithm gives this result.
unfoldable pub sorted_keys : {F : Type 0} → Benchmarks F → List Bytes
sorted_keys m = sort_by bytes_lt (keys m)

-- What compare concludes of a benchmark that is in both runs.
pub data BenchVerdict : Type 0 where
  passes more_allocs more_bytes slower : BenchVerdict

abbrev pub is_failure : BenchVerdict → Bool
is_failure passes = false
is_failure more_allocs = true
is_failure more_bytes = true
is_failure slower = true

-- A report and the number of failures in it.
pub record Compared : Type 0 where
  pub report : Bytes
  pub failures : ℕ

abbrev pub half : ℕ → ℕ
half n = n / 2

module _ {F : Type 0} (fl : Float F) where
  -- The order of sort.Float64s, in which NaN comes first.
  abbrev pub float_less : F → F → Bool
  float_less x y = fl.lt x y || (not (fl.equal x x) && fl.equal y y)

  abbrev pub middle : List F → ℕ → F
  middle s n =
      if n % 2 == 1
      then get_or s (n / 2) (fl.literal 0)
      else fl.div (fl.add (get_or s (n / 2 - 1) (fl.literal 0)) (get_or s (n / 2) (fl.literal 0)))
          (fl.literal 2)

  unfoldable pub median : List F → F
  median [] = fl.literal 0
  median (x ∷ v) = middle (sort_by float_less (x ∷ v)) (length (x ∷ v))

  unfoldable pub highest_from : F → List F → F
  highest_from m [] = m
  highest_from m (x ∷ v) = highest_from (if fl.lt m x then x else m) v

  unfoldable pub max_of : List F → F
  unfolding highest_from
  max_of v = highest_from (fl.literal 0) v

  unfoldable pub pct : F → F → F
  pct base head =
      if fl.equal base (fl.literal 0)
      then fl.literal 0
      else fl.mul (fl.div (fl.sub head base) base) (fl.literal 100)

  -- The line of a benchmark that only the head has.
  unfoldable pub new_line : Bytes → Samples F → Bytes
  unfolding median max_of
  new_line name h = concat (
      codes "NEW   "
      ∷ fl.padded 55 name
      ∷ codes " "
      ∷ fl.fixed 10 2 (median h.ns)
      ∷ codes " ns/op "
      ∷ fl.fixed 8 0 (max_of h.bytes)
      ∷ codes " B/op "
      ∷ fl.fixed 6 0 (max_of h.allocs)
      ∷ codes " allocs/op\n"
      ∷ [])

  module _ (threshold floor : F) where
    unfoldable pub bench_verdict : Samples F → Samples F → BenchVerdict
    unfolding median max_of
    bench_verdict b h =
        if fl.lt (max_of b.allocs) (max_of h.allocs)
        then more_allocs
        else if fl.lt (max_of b.bytes) (max_of h.bytes)
        then more_bytes
        else if fl.lt (fl.mul (median b.ns) (fl.add (fl.literal 1) threshold)) (median h.ns)
            && fl.lt floor (fl.sub (median h.ns) (median b.ns))
        then slower
        else passes

    abbrev pub verdict_text : BenchVerdict → Bytes
    verdict_text passes = codes "ok"
    verdict_text more_allocs = codes "FAIL allocs/op increased"
    verdict_text more_bytes = codes "FAIL B/op increased"
    verdict_text slower = concat (
        codes "FAIL ns/op regressed beyond +"
        ∷ fl.fixed 0 0 (fl.mul threshold (fl.literal 100))
        ∷ codes "%"
        ∷ [])

    unfoldable pub both_line : Bytes → Samples F → Samples F → BenchVerdict → Bytes
    unfolding median max_of pct
    both_line name b h v = concat (
        fl.padded 61 name
        ∷ codes " "
        ∷ fl.fixed 10 2 (median b.ns)
        ∷ codes " -> "
        ∷ fl.fixed 10 2 (median h.ns)
        ∷ codes " ns/op ("
        ∷ fl.signed_fixed 6 1 (pct (median b.ns) (median h.ns))
        ∷ codes "%)  "
        ∷ fl.fixed 3 0 (max_of b.allocs)
        ∷ codes " -> "
        ∷ fl.fixed 3 0 (max_of h.allocs)
        ∷ codes " allocs/op  "
        ∷ verdict_text v
        ∷ codes "\n"
        ∷ [])

    abbrev pub row : Bytes → Option (Samples F) → Option (Samples F) → Compared
    row name b none = record { report = []; failures = 0 }
    row name none (some h) = record { report = new_line name h; failures = 0 }
    row name (some b) (some h) = record {
      report = both_line name b h (bench_verdict b h);
      failures = if is_failure (bench_verdict b h) then 1 else 0;
    }

    -- The loop over the names of the head.
    unfoldable pub head_rows : Benchmarks F → Benchmarks F → List Bytes → Compared
    unfolding bench_verdict new_line both_line
    head_rows base head [] = record { report = []; failures = 0 }
    head_rows base head (name ∷ names) =
        let r = row name (lookup name base) (lookup name head) in
        let rest = head_rows base head names in
        record { report = r.report ++ rest.report; failures = r.failures + rest.failures }

    abbrev pub gone_line : Bytes → Option (Samples F) → Bytes
    gone_line name none = concat (codes "GONE  " ∷ name ∷ codes "\n" ∷ [])
    gone_line name (some h) = []

    -- The loop over the names of the base.
    unfoldable pub gone_rows : Benchmarks F → List Bytes → Bytes
    gone_rows head [] = []
    gone_rows head (name ∷ names) = gone_line name (lookup name head) ++ gone_rows head names

    unfoldable pub compare_runs : Benchmarks F → Benchmarks F → Compared
    unfolding sorted_keys head_rows gone_rows
    compare_runs base head =
        let rows = head_rows base head (sorted_keys head) in
        record rows { report = rows.report ++ gone_rows head (sorted_keys base) }
