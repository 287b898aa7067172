-- ===== src/Benchgate/Main.antt =====
-- internal/benchgate/main.go: main and parseFile, behind the parse of the flags.
use go_txnpure.Base.{
  ltb, if◌then◌else◌, nat_eq, Bytes, codes, bytes_Eq, ℕ, Option, none, some, List, [], ◌∷◌, ◌++◌,
}
use go_txnpure.Benchgate.Compare.{Compared, compare_runs}
use go_txnpure.Benchgate.Float.{Float}
use go_txnpure.Benchgate.Parse.{Benchmarks, parse}
use go_txnpure.Format.{itoa, concat}

-- An open file: its bytes, and the error of reading it, if there is one behind them.
pub record File : Type 0 where
  pub content : Bytes
  pub read_error : Option Bytes

-- What os.Open gives for a path: a file, or the text of an error.
pub data Opened : Type 0 where
  opens : File → Opened
  refuses : Bytes → Opened

pub data Parsed (F : Type 0) : Type 0 where
  ok : Benchmarks F → Parsed F
  err : Bytes → Parsed F

-- How the process ends, and what it has printed.
pub record Exit : Type 0 where
  pub code : ℕ
  pub out : Bytes
  pub err_out : Bytes

abbrev pub failed : Bytes → Exit
failed text = record { code = 2; out = []; err_out = text ++ codes "\n" }

abbrev pub usage : Exit
usage = failed (codes "usage: benchgate [-threshold 0.25] [-floor 5] base.txt head.txt")

abbrev pub finish_with : Compared → Exit
finish_with c =
    if ltb 0 c.failures
    then record {
      code = 1;
      out = concat (
          c.report
          ∷ codes "\nbenchgate: "
          ∷ itoa c.failures
          ∷ codes
              " regression(s) against base. If the regression is intended and justified, adjust the benchmark or budget in the same PR and say why.\n"
          ∷ []);
      err_out = [];
    }
    else record { code = 0; out = c.report ++ codes "\nbenchgate: no regressions.\n"; err_out = [] }

module _ {F : Type 0} (fl : Float F) where
  abbrev pub with_error : Benchmarks F → Option Bytes → Parsed F
  with_error out none = ok out
  with_error out (some e) = err e

  abbrev pub parse_opened : Opened → Parsed F
  parse_opened (refuses e) = err e
  parse_opened (opens f) = let (out, e) = parse fl f.content f.read_error in with_error out e

  unfoldable pub parse_file : (Bytes → Opened) → Bytes → Parsed F
  unfolding parse
  parse_file open_file path = parse_opened (open_file path)

  module _ (threshold floor : F) where
    abbrev pub gate : Parsed F → Parsed F → Exit
    gate (err e) head = failed (codes "benchgate: " ++ e)
    gate (ok base) (err e) = failed (codes "benchgate: " ++ e)
    gate (ok base) (ok head) = finish_with (compare_runs fl threshold floor base head)

    -- `args` are the arguments behind the flags.
    unfoldable pub main : (Bytes → Opened) → List Bytes → Exit
    unfolding parse_file compare_runs itoa
    main open_file [] = usage
    main open_file (base ∷ []) = usage
    main open_file (base ∷ head ∷ []) = gate (parse_file open_file base) (parse_file open_file head)
    main open_file (base ∷ head ∷ more ∷ args) = usage
