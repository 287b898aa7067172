-- ===== src/Benchgate/Parse.antt =====
-- internal/benchgate/main.go: parse and stripProcs. The output of a benchmark is ASCII text.
use go_txnpure.Base.{
  ltb, leb, ◌==◌, if◌then◌else◌, length, take, drop, nat_eq, Bytes, codes, bytes_eq, bytes_Eq,
  lookup, insert, ℕ, zero, suc, ◌+◌, Bool, true, false, ◌&&◌, ◌||◌, Option, none, some, List, [],
  ◌∷◌, ◌++◌,
}
use go_txnpure.Benchgate.Float.{Float}
use go_txnpure.Classify.Scan.{has_prefix}

pub record Samples (F : Type 0) : Type 0 where
  pub ns : List F
  pub bytes : List F
  pub allocs : List F

abbrev pub no_samples : {F : Type 0} → Samples F
no_samples = record { ns = []; bytes = []; allocs = [] }

abbrev pub Benchmarks : Type 0 → Type 0
Benchmarks F = List (Bytes × Samples F)

-- strings.LastIndexByte
unfoldable pub last_index_byte : Bytes → ℕ → Option ℕ
last_index_byte [] b = none
last_index_byte (c ∷ q) b = elim (last_index_byte q b) [
  | some i ↦ some (suc i)
  | none ↦ if c == b then some 0 else none
]

unfoldable pub all_digits : Bytes → Bool
all_digits [] = true
all_digits (c ∷ s) = if ltb c b'0' || ltb b'9' c then false else all_digits s

abbrev pub strip_at : Bytes → Option ℕ → Bytes
strip_at name none = name
strip_at name (some zero) = name
strip_at name (some (suc i)) =
    if all_digits (drop (suc i + 1) name) then take (suc i) name else name

unfoldable pub strip_procs : Bytes → Bytes
unfolding last_index_byte all_digits
strip_procs name = strip_at name (last_index_byte name b'-')

unfoldable pub is_space : ℕ → Bool
is_space c = c == b' ' || (leb 9 c && leb c 13)

abbrev pub end_field : Bytes → List Bytes → List Bytes
end_field [] fields = fields
end_field (c ∷ field) fields = (c ∷ field) ∷ fields

-- strings.Fields, with the bytes of the field that the scan is in.
unfoldable pub fields_from : Bytes → Bytes → List Bytes
unfolding is_space
fields_from field [] = end_field field []
fields_from field (c ∷ s) = elim (is_space c) [
  | true ↦ end_field field (fields_from [] s)
  | false ↦ fields_from (field ++ c ∷ []) s
]

unfoldable pub fields_of : Bytes → List Bytes
unfolding fields_from
fields_of s = fields_from [] s

-- The lines that a bufio.Scanner gives, and its error.
pub record Scanned : Type 0 where
  pub lines : List Bytes
  pub error : Option Bytes

-- A line does not fit the buffer of the scanner if it has so many bytes.
abbrev pub max_token : ℕ
max_token = 65536

abbrev pub err_too_long : Bytes
err_too_long = codes "bufio.Scanner: token too long"

unfoldable pub drop_cr : Bytes → Bytes
drop_cr [] = []
drop_cr (c ∷ []) = if c == b'\r' then [] else c ∷ []
drop_cr (c ∷ d ∷ s) = c ∷ drop_cr (d ∷ s)

abbrev pub with_line : Bytes → Scanned → Scanned
with_line line sc = record sc { lines = line ∷ sc.lines }

abbrev pub last_line : Bytes → List Bytes
last_line [] = []
last_line (c ∷ line) = drop_cr (c ∷ line) ∷ []

-- `read_error` is what the file answers behind its last byte, if that is not the end.
unfoldable pub scan_lines : Option Bytes → Bytes → Bytes → Scanned
unfolding drop_cr
scan_lines read_error line [] = record { lines = last_line line; error = read_error }
scan_lines read_error line (c ∷ s) = elim (c == b'\n') [
  | true ↦ with_line (drop_cr line) (scan_lines read_error [] s)
  | false ↦ elim (leb max_token (length line + 1)) [
    | true ↦ record { lines = []; error = some err_too_long }
    | false ↦ scan_lines read_error (line ++ c ∷ []) s
  ]
]

module _ {F : Type 0} (fl : Float F) where
  abbrev pub add_value : F → Bytes → Samples F → Samples F
  add_value v unit s =
      if bytes_eq unit (codes "ns/op")
      then record s { ns = s.ns ++ v ∷ [] }
      else if bytes_eq unit (codes "B/op")
      then record s { bytes = s.bytes ++ v ∷ [] }
      else if bytes_eq unit (codes "allocs/op")
      then record s { allocs = s.allocs ++ v ∷ [] }
      else s

  abbrev pub add_field : Option F → Bytes → Samples F → Samples F
  add_field none unit s = s
  add_field (some v) unit s = add_value v unit s

  -- The loop over the fields from the third on, each with the one behind it as the unit.
  unfoldable pub add_fields : List Bytes → Samples F → Samples F
  add_fields [] s = s
  add_fields (field ∷ []) s = s
  add_fields (field ∷ unit ∷ fields) s =
      add_fields (unit ∷ fields) (add_field (fl.parse_float field) unit s)

  abbrev pub or_no_samples : Option (Samples F) → Samples F
  or_no_samples none = no_samples
  or_no_samples (some s) = s

  -- A round of the loop of parse, on the fields of a line.
  abbrev pub parse_fields : List Bytes → Benchmarks F → Benchmarks F
  parse_fields [] out = out
  parse_fields (name ∷ fields) out =
      if leb 3 (length fields) && has_prefix name (codes "Benchmark")
      then insert (strip_procs name)
          (add_fields (drop 1 fields) (or_no_samples (lookup (strip_procs name) out))) out
      else out

  unfoldable pub parse_line : Bytes → Benchmarks F → Benchmarks F
  unfolding fields_of strip_procs add_fields
  parse_line line out = parse_fields (fields_of line) out

  unfoldable pub parse_lines : List Bytes → Benchmarks F → Benchmarks F
  unfolding parse_line
  parse_lines [] out = out
  parse_lines (line ∷ lines) out = parse_lines lines (parse_line line out)

  -- parse, on the bytes of the file and the error of reading it.
  unfoldable pub parse : Bytes → Option Bytes → Benchmarks F × Option Bytes
  unfolding scan_lines parse_lines
  parse content read_error =
      let sc = scan_lines read_error [] content in (parse_lines sc.lines [], sc.error)
