-- ===== src/Benchgate/Gathered.antt =====
-- internal/benchgate/main.go: what parse collects for each benchmark.
use go_txnpure.Base.{
  leb, if◌then◌else◌, length, drop, nat_eq, Bytes, codes, bytes_eq, bytes_eq_iff, bytes_Eq, lookup,
  insert, lookup-insert, ◌≡◌, refl, ap, ◌∙◌, Bool, true, false, ◌&&◌, Option, none, some, List, [],
  ◌∷◌,
}
use go_txnpure.Benchgate.Float.{Float}
use go_txnpure.Benchgate.Parse.{
  Samples, Benchmarks, strip_procs, fields_of, add_fields, or_no_samples, parse_fields, parse_line,
  parse_lines,
}
use go_txnpure.Classify.Scan.{has_prefix}

module _ {F : Type 0} (fl : Float F) where
  -- The benchmark that a line is about, if it is about one.
  abbrev pub subject_of : List Bytes → Option Bytes
  subject_of [] = none
  subject_of (name ∷ fields) =
      if leb 3 (length fields) && has_prefix name (codes "Benchmark")
      then some (strip_procs name)
      else none

  abbrev pub is_about : Bytes → Option Bytes → Bool
  is_about name none = false
  is_about name (some n) = bytes_eq n name

  -- The samples of the lines that are about a benchmark, in their order, behind those before.
  abbrev pub gathered : Bytes → List Bytes → Option (Samples F) → Option (Samples F)
  gathered name [] s = s
  gathered name (line ∷ lines) s = gathered name lines (
      if is_about name (subject_of (fields_of line))
      then some (add_fields fl (drop 2 (fields_of line)) (or_no_samples fl s))
      else s)

  lookup-parse_fields :
      (name : Bytes) (fields : List Bytes) (out : Benchmarks F)
      → lookup name (parse_fields fl fields out) ≡ (
          if is_about name (subject_of fields)
          then some (add_fields fl (drop 2 fields) (or_no_samples fl (lookup name out)))
          else lookup name out)
  lookup-parse_fields name [] out = refl
  lookup-parse_fields name (n ∷ fields) out =
      at (leb 3 (length fields) && has_prefix n (codes "Benchmark"))
    where
      s : Samples F
      s = add_fields fl (drop 1 fields) (or_no_samples fl (lookup (strip_procs n) out))

      at_key :
          (b : Bool)
          → bytes_eq (strip_procs n) name ≡ b
          → (if b then some s else lookup name out) ≡ (
              if b
              then some (add_fields fl (drop 1 fields) (or_no_samples fl (lookup name out)))
              else lookup name out)
      at_key true e =
          ap (λ k. some (add_fields fl (drop 1 fields) (or_no_samples fl (lookup k out))))
            ((bytes_eq_iff (strip_procs n) name).0 e)
      at_key false e = refl

      at :
          (b : Bool)
          → lookup name (if b then insert (strip_procs n) s out else out) ≡ (
              if is_about name (if b then some (strip_procs n) else none)
              then some (add_fields fl (drop 1 fields) (or_no_samples fl (lookup name out)))
              else lookup name out)
      at true =
          lookup-insert (strip_procs n) name s out ∙ at_key (bytes_eq (strip_procs n) name) refl
      at false = refl

  -- What parse has of a benchmark is what the lines about it give, in their order, whatever the other
  -- lines are and however they are mixed with these.
  pub lookup-parse_lines :
      (name : Bytes) (lines : List Bytes) (out : Benchmarks F)
      → lookup name (parse_lines fl lines out) ≡ gathered name lines (lookup name out)
  unfolding parse_lines parse_line
  lookup-parse_lines name [] out = refl
  lookup-parse_lines name (line ∷ lines) out =
      lookup-parse_lines name lines _
      ∙ ap (gathered name lines) (lookup-parse_fields name (fields_of line) out)
