-- ===== src/Format.antt =====
-- What fmt and strconv print of an integer.
use go_txnpure.Base.{
  ◌==◌, if◌then◌else◌, ℤ, pos, negsuc, nat_eq, Bytes, bytes_Eq, ℕ, zero, suc, ◌+◌, ◌/◌, ◌%◌, List,
  [], ◌∷◌, ◌++◌,
}

digit : ℕ → ℕ
digit n = b'0' + n % 10

-- The decimal digits of `n` in front of `acc`; `fuel` is more than `n`.
unfoldable pub digits : ℕ → ℕ → Bytes → Bytes
unfolding digit
digits zero n acc = acc
digits (suc fuel) n acc =
    let rest = digits fuel (n / 10) (digit n ∷ acc) in if n / 10 == 0 then digit n ∷ acc else rest

-- strconv.Itoa of a number that is not negative.
unfoldable pub itoa : ℕ → Bytes
unfolding digits
itoa n = digits (suc n) n []

-- strconv.Itoa, and the verb %d.
unfoldable pub format_int : ℤ → Bytes
unfolding itoa
format_int (pos n) = itoa n
format_int (negsuc n) = b'-' ∷ itoa (suc n)

-- The pieces of a format, one behind the other.
abbrev pub concat : List Bytes → Bytes
concat [] = []
concat (s ∷ pieces) = s ++ concat pieces
