-- ===== src/Tests/Bench.antt =====
-- The gate on two small runs, with natural numbers in place of float64.
use go_txnpure.Base.{
  ltb, ◌==◌, if◌then◌else◌, nat_eq, Bytes, codes, bytes_eq, bytes_Eq, lookup, insert, sort_by, ℕ,
  ◌+◌, ◌-◌, ◌*◌, ◌/◌, ◌≡◌, refl, ◌⊎◌, false, none, some, List, [], ◌∷◌, ◌++◌, arith,
}
use mathlib.Core.List.{Memᴰ}
use go_txnpure.Benchgate.Compare.{
  compare_runs, head_rows, gone_rows, sorted_keys, bench_verdict, both_line, new_line, median,
  max_of, highest_from, pct,
}
use go_txnpure.Benchgate.Exits.{expected_exit, code-main}
use go_txnpure.Benchgate.Float.{Float}
use go_txnpure.Benchgate.Gathered.{gathered, lookup-parse_lines}
use go_txnpure.Benchgate.Highest.{Bounds, max_of-Bounds}
use go_txnpure.Benchgate.Main.{Opened, opens, refuses, main, parse_file}
use go_txnpure.Benchgate.Parse.{
  parse, parse_lines, parse_line, scan_lines, drop_cr, fields_of, fields_from, is_space, add_fields,
  strip_procs, last_index_byte, all_digits,
}
use go_txnpure.Benchgate.Suffix.{strip_procs-suffix}
use go_txnpure.Classify.Scan.{has_prefix}
use go_txnpure.Format.{itoa}

abbrev value : ℕ → Bytes → ℕ
value n [] = n
value n (c ∷ s) = value (n * 10 + (c - b'0')) s

abbrev naturals : Float ℕ
naturals = record {
  literal = λ n. n;
  lt = ltb;
  equal = λ a b. a == b;
  add = λ a b. a + b;
  sub = λ a b. a - b;
  mul = λ a b. a * b;
  div = λ a b. a / b;
  parse_float = λ s. if all_digits s then some (value 0 s) else none;
  fixed = λ w p x. itoa x;
  signed_fixed = λ w p x. b'+' ∷ itoa x;
  padded = λ w s. s;
}

abbrev base_line : Bytes
base_line = codes "BenchmarkCheck-8 100 50 ns/op 16 B/op 2 allocs/op"

abbrev head_line : Bytes
head_line = codes "BenchmarkCheck-8\t100  50 ns/op 16 B/op 3 allocs/op"

-- `base.txt` and `head.txt`; no other file is there.
abbrev open_file : Bytes → Opened
open_file path =
    if bytes_eq path (codes "base.txt")
    then opens (record { content = base_line ++ b'\n' ∷ []; read_error = none })
    else if bytes_eq path (codes "head.txt")
    then opens (record { content = head_line; read_error = none })
    else refuses (codes "no such file")

abbrev runs : List Bytes
runs = codes "base.txt" ∷ codes "head.txt" ∷ []

one_regression : (main naturals 1 5 open_file runs).code ≡ 1
unfolding main parse_file parse parse_lines parse_line scan_lines drop_cr fields_of fields_from
    is_space add_fields strip_procs last_index_byte all_digits has_prefix compare_runs head_rows
    gone_rows sorted_keys bench_verdict both_line new_line median max_of highest_from pct bytes_eq
    sort_by insert lookup
one_regression = refl

code-main_example :
    (main naturals 1 5 open_file runs).code ≡ expected_exit naturals 1 5 open_file runs
code-main_example = code-main naturals 1 5 open_file runs

lookup-parse_lines_example :
    lookup (codes "BenchmarkCheck") (parse_lines naturals (base_line ∷ head_line ∷ []) [])
    ≡ gathered naturals
        (codes "BenchmarkCheck")
        (base_line ∷ head_line ∷ [])
        (lookup (codes "BenchmarkCheck") [])
lookup-parse_lines_example =
    lookup-parse_lines naturals (codes "BenchmarkCheck") (base_line ∷ head_line ∷ []) []

abbrev three_values : List ℕ
three_values = 4 ∷ 9 ∷ 7 ∷ []

highest_of_three :
    ((max_of naturals three_values ≡ 0) ⊎ Memᴰ (max_of naturals three_values) three_values)
    × (ltb (max_of naturals three_values) 0 ≡ false)
    × Bounds naturals (max_of naturals three_values) three_values
highest_of_three =
    max_of-Bounds naturals three_values (λ x y z h k. ground arith) (λ x. ground arith)

stripped_name :
    strip_procs (codes "BenchmarkCheck/n-3" ++ b'-' ∷ codes "16") ≡ codes "BenchmarkCheck/n-3"
stripped_name = strip_procs-suffix (codes "BenchmarkCheck/n-3") (codes "16") (omega arith) (cc)
