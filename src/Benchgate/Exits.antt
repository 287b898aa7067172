-- ===== src/Benchgate/Exits.antt =====
-- internal/benchgate/main.go: the exit code of the gate.
use go_txnpure.Base.{
  ltb, if◌then◌else◌, Bool-cases, nat_eq, Bytes, bytes_Eq, bytes_lt, lookup, count, count-sort_by,
  ℕ, ◌≡◌, refl, ◌∙◌, inl, inr, Bool, true, false, ◌&&◌, ◌||◌, Option, none, some, List, [], ◌∷◌,
  arith,
}
use go_txnpure.Benchgate.Compare.{
  Compared, passes, more_allocs, more_bytes, slower, keys, sorted_keys, median, max_of, is_failure,
  bench_verdict, row, head_rows, compare_runs,
}
use go_txnpure.Benchgate.Float.{Float}
use go_txnpure.Benchgate.Main.{Opened, Parsed, ok, err, finish_with, parse_file, gate, main}
use go_txnpure.Benchgate.Parse.{Samples, Benchmarks}

module _ {F : Type 0} (fl : Float F) (threshold floor : F) where
  -- A benchmark regresses if it allocates more, in number or in bytes, or if it is slower both by the
  -- threshold and by the floor.
  abbrev pub regresses : Samples F → Samples F → Bool
  regresses b h =
      fl.lt (max_of fl b.allocs) (max_of fl h.allocs)
      || (fl.lt (max_of fl b.bytes) (max_of fl h.bytes)
          || (fl.lt (fl.mul (median fl b.ns) (fl.add (fl.literal 1) threshold)) (median fl h.ns)
              && fl.lt floor (fl.sub (median fl h.ns) (median fl b.ns))))

  -- A benchmark that only one run has does not regress.
  abbrev pub regresses_if_both : Option (Samples F) → Option (Samples F) → Bool
  regresses_if_both none h = false
  regresses_if_both (some b) none = false
  regresses_if_both (some b) (some h) = regresses b h

  -- The number of the benchmarks of the head that regress, in whatever order they come.
  abbrev pub regressions : Benchmarks F → Benchmarks F → ℕ
  regressions base head =
      count (λ name. regresses_if_both (lookup name base) (lookup name head)) (keys head)

  is_failure-bench_verdict :
      (b h : Samples F) → is_failure (bench_verdict fl threshold floor b h) ≡ regresses b h
  unfolding bench_verdict
  is_failure-bench_verdict b h = at _ _ _
    where
      at :
          (p q r : Bool)
          → is_failure
              (if p then more_allocs else if q then more_bytes else if r then slower else passes)
            ≡ (p || (q || r))
      at true q r = refl
      at false true r = refl
      at false false true = refl
      at false false false = refl

  failures-row :
      (name : Bytes) (b h : Option (Samples F))
      → (row fl threshold floor name b h).failures ≡ (if regresses_if_both b h then 1 else 0)
  failures-row name none none = refl
  failures-row name none (some h) = refl
  failures-row name (some b) none = refl
  failures-row name (some b) (some h) = rw (is_failure-bench_verdict b h) refl

  failures-head_rows :
      (base head : Benchmarks F) (names : List Bytes)
      → (head_rows fl threshold floor base head names).failures
        ≡ count (λ name. regresses_if_both (lookup name base) (lookup name head)) names
  unfolding head_rows
  failures-head_rows base head [] = refl
  failures-head_rows base head (name ∷ names) = omega (
    arith,
    failures-row name (lookup name base) (lookup name head),
    failures-head_rows base head names,
  )

  failures-compare_runs :
      (base head : Benchmarks F)
      → (compare_runs fl threshold floor base head).failures ≡ regressions base head
  unfolding compare_runs sorted_keys
  failures-compare_runs base head =
      failures-head_rows base head (sorted_keys head) ∙ count-sort_by bytes_lt _ (keys head)

  -- 2 if a run cannot be read, and else 1 if a benchmark regresses.
  abbrev pub expected_code : Parsed F → Parsed F → ℕ
  expected_code (err e) head = 2
  expected_code (ok base) (err e) = 2
  expected_code (ok base) (ok head) = if ltb 0 (regressions base head) then 1 else 0

  code-finish_with :
      (c : Compared) (n : ℕ) → c.failures ≡ n → (finish_with c).code ≡ (if ltb 0 n then 1 else 0)
  code-finish_with c n e = elim (Bool-cases (ltb 0 c.failures)) [
    | inl fails ↦ rw (fails, ← e, fails) refl
    | inr clean ↦ rw (clean, ← e, clean) refl
  ]

  code-gate :
      (base head : Parsed F) → (gate fl threshold floor base head).code ≡ expected_code base head
  code-gate (err e) head = refl
  code-gate (ok base) (err e) = refl
  code-gate (ok base) (ok head) = code-finish_with _ _ (failures-compare_runs base head)

  -- By the arguments, of which there have to be two.
  abbrev pub expected_exit : (Bytes → Opened) → List Bytes → ℕ
  expected_exit open_file [] = 2
  expected_exit open_file (a ∷ []) = 2
  expected_exit open_file (base ∷ head ∷ []) =
      expected_code (parse_file fl open_file base) (parse_file fl open_file head)
  expected_exit open_file (a ∷ b ∷ c ∷ args) = 2

  -- The gate on two files exits with 2 if one of them cannot be opened or read, with 1 if some
  -- benchmark that both runs have allocates more often, allocates more bytes, or is slower by both
  -- the threshold and the floor, and otherwise with 0. With any other number of files it exits with 2.
  pub code-main :
      (open_file : Bytes → Opened) (args : List Bytes)
      → (main fl threshold floor open_file args).code ≡ expected_exit open_file args
  unfolding main
  code-main open_file [] = refl
  code-main open_file (a ∷ []) = refl
  code-main open_file (base ∷ head ∷ []) =
      code-gate (parse_file fl open_file base) (parse_file fl open_file head)
  code-main open_file (a ∷ b ∷ c ∷ args) = refl
