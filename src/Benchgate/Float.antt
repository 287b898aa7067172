-- ===== src/Benchgate/Float.antt =====
-- What the gate uses of float64 and of its text: the comparisons and operations of the machine,
-- strconv.ParseFloat and the verbs %f, %+f and %-s of fmt.
use go_txnpure.Base.{nat_eq, Bytes, bytes_Eq, ℕ, Bool, Option}

pub record Float (F : Type 0) : Type 0 where
  -- 0, 1, 2 and 100
  pub literal : ℕ → F
  pub lt : F → F → Bool
  pub equal : F → F → Bool
  pub add : F → F → F
  pub sub : F → F → F
  pub mul : F → F → F
  pub div : F → F → F
  -- no number if there is an error
  pub parse_float : Bytes → Option F
  -- %w.pf, %+w.pf and %-ws
  pub fixed : ℕ → ℕ → F → Bytes
  pub signed_fixed : ℕ → ℕ → F → Bytes
  pub padded : ℕ → Bytes → Bytes
