-- ===== src/Report/Counts.antt =====
-- reporter.go: the declared counts can be read back from the text of a report.
use go_txnpure.Base.{
  ◌==◌, if◌then◌else◌, ==_iff, Bool-cases, ℤ, pos, negsuc, nat_eq, Bytes, bytes_Eq, ℕ, zero, suc,
  ◌+◌, ◌-◌, ◌*◌, ◌/◌, ◌%◌, ◌<◌, ◌≡◌, refl, sym, ap, ◌∙◌, ◌≢◌, inl, inr, Bool, true, false, List, [],
  ◌∷◌, ◌++◌, arith,
}
use mathlib.Core.List.{append_assoc, cons-ne-nil}
use go_txnpure.Format.{digits, itoa, format_int}
use go_txnpure.Report.Text.{join_counts, join_rest}

-- The counts in front of the last comma, and the sign and the digits behind it.
pub record Reading : Type 0 where
  pub counts : List ℤ
  pub negative : Bool
  pub magnitude : ℕ

abbrev pub signed : Bool → ℕ → ℤ
signed false n = pos n
signed true zero = pos 0
signed true (suc n) = negsuc n

abbrev pub current : Reading → ℤ
current r = signed r.negative r.magnitude

abbrev pub fresh : List ℤ → Reading
fresh counts = record { counts = counts; negative = false; magnitude = 0 }

abbrev pub read_byte : Reading → ℕ → Reading
read_byte r c =
    if c == b','
    then fresh (r.counts ++ current r ∷ [])
    else if c == b' '
    then r
    else if c == b'-'
    then record r { negative = true }
    else record r { magnitude = r.magnitude * 10 + (c - b'0') }

abbrev pub read_all : Reading → Bytes → Reading
read_all r [] = r
read_all r (c ∷ s) = read_all (read_byte r c) s

-- A reader of counts with commas between them.
abbrev pub read_counts : Bytes → List ℤ
read_counts [] = []
read_counts (c ∷ s) = let r = read_all (fresh []) (c ∷ s) in r.counts ++ current r ∷ []

-- Reading the last digit of `n` behind the digits in front of it.
read_digit :
    (n m : ℕ) (r : Reading)
    → m ≡ n / 10
    → read_byte (record r { magnitude = m }) (48 + n % 10) ≡ record r { magnitude = n }
read_digit n m r h = ground arith

read_digits :
    (fuel n : ℕ) (r : Reading) (acc rest : Bytes)
    → n < fuel
    → read_all (record r { magnitude = 0 }) (digits fuel n acc ++ rest)
      ≡ read_all (record r { magnitude = n }) (acc ++ rest)
unfolding digits
read_digits zero n r acc rest h = absurd (omega arith)
read_digits (suc fuel) n r acc rest h = elim (Bool-cases (n / 10 == 0)) [
  | inl last ↦
      rw last
        (ap (λ q. read_all q (acc ++ rest)) (read_digit n 0 r (sym ((==_iff (n / 10) 0).0 last))))
  | inr more ↦ rw more (
      read_digits fuel (n / 10) r ((48 + n % 10) ∷ acc) rest (ground arith)
      ∙ ap (λ q. read_all q (acc ++ rest)) (read_digit n (n / 10) r refl))
]

read_itoa :
    (n : ℕ) (r : Reading) (rest : Bytes)
    → read_all (record r { magnitude = 0 }) (itoa n ++ rest)
      ≡ read_all (record r { magnitude = n }) rest
unfolding itoa
read_itoa n r rest = read_digits (suc n) n r [] rest (omega arith)

-- What the reader has behind the text of one count.
abbrev after : List ℤ → ℤ → Reading
after counts (pos n) = record { counts = counts; negative = false; magnitude = n }
after counts (negsuc n) = record { counts = counts; negative = true; magnitude = suc n }

read_int :
    (counts : List ℤ) (c : ℤ) (rest : Bytes)
    → read_all (fresh counts) (format_int c ++ rest) ≡ read_all (after counts c) rest
unfolding format_int
read_int counts (pos n) rest = read_itoa n (fresh counts) rest
read_int counts (negsuc n) rest =
    read_itoa (suc n) (record { counts = counts; negative = true; magnitude = 0 }) rest

abbrev conclude : Reading → List ℤ
conclude r = r.counts ++ current r ∷ []

read_next :
    (done : List ℤ) (c d : ℤ) (counts : List ℤ)
    → conclude (read_all (after (done ++ c ∷ []) d) (join_rest counts))
      ≡ (done ++ c ∷ []) ++ d ∷ counts
    → conclude (read_all (fresh (done ++ c ∷ [])) (format_int d ++ join_rest counts))
      ≡ done ++ c ∷ d ∷ counts
read_next done c d counts h =
    ap conclude (read_int (done ++ c ∷ []) d (join_rest counts))
    ∙ h
    ∙ append_assoc done (c ∷ []) (d ∷ counts)

read_rest :
    (done : List ℤ) (c : ℤ) (counts : List ℤ)
    → conclude (read_all (after done c) (join_rest counts)) ≡ done ++ c ∷ counts
unfolding join_rest
read_rest done (pos n) [] = refl
read_rest done (negsuc n) [] = refl
read_rest done (pos n) (d ∷ counts) =
    read_next done (pos n) d counts (read_rest (done ++ pos n ∷ []) d counts)
read_rest done (negsuc n) (d ∷ counts) =
    read_next done (negsuc n) d counts (read_rest (done ++ negsuc n ∷ []) d counts)

digits-ne-nil : (fuel n c : ℕ) (acc : Bytes) → digits fuel n (c ∷ acc) ≢ []
unfolding digits
digits-ne-nil zero n c acc = cons-ne-nil c acc
digits-ne-nil (suc fuel) n c acc = elim (Bool-cases (n / 10 == 0)) [
  | inl last ↦ rw last (cons-ne-nil _ (c ∷ acc))
  | inr more ↦ rw more (digits-ne-nil fuel (n / 10) _ (c ∷ acc))
]

itoa-ne-nil : (n : ℕ) → itoa n ≢ []
unfolding itoa digits
itoa-ne-nil n = elim (Bool-cases (n / 10 == 0)) [
  | inl last ↦ rw last (cons-ne-nil _ [])
  | inr more ↦ rw more (digits-ne-nil n (n / 10) _ [])
]

format_int-ne-nil : (c : ℤ) (rest : Bytes) → format_int c ++ rest ≢ []
unfolding format_int
format_int-ne-nil (pos n) rest = at (itoa n) (itoa-ne-nil n)
  where
    at : (s : Bytes) → s ≢ [] → s ++ rest ≢ []
    at [] h = absurd (h refl)
    at (c ∷ s) h = cons-ne-nil c (s ++ rest)
format_int-ne-nil (negsuc n) rest = cons-ne-nil _ _

read_counts-conclude : (s : Bytes) → s ≢ [] → read_counts s ≡ conclude (read_all (fresh []) s)
read_counts-conclude [] h = absurd (h refl)
read_counts-conclude (c ∷ s) h = refl

-- Whatever the declared counts of a report are, its text has them: a reader that splits at commas
-- gets back the same list, with the signs.
pub read_counts-join_counts : (counts : List ℤ) → read_counts (join_counts counts) ≡ counts
unfolding join_counts
read_counts-join_counts [] = refl
read_counts-join_counts (c ∷ counts) =
    read_counts-conclude _ (format_int-ne-nil c (join_rest counts))
    ∙ ap conclude (read_int [] c (join_rest counts))
    ∙ read_rest [] c counts
