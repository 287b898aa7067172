-- ===== src/Classify/Reference.antt =====
-- `DefaultClassifier` against a keyword table: the switch on the first byte is an optimisation.
use go_txnpure.Base.{
  ◌==◌, if◌then◌else◌, Bool-cases, length, take, drop, All, nat_eq, Bytes, IsBytes, codes, bytes_eq,
  bytes_Eq, to_upper, ℕ, zero, suc, ◌+◌, ◌<◌, ◌≡◌, refl, ◌⊎◌, inl, inr, Bool, true, false, not,
  ◌&&◌, Option, none, some, List, [], ◌∷◌, map, arith,
}
use Prim.Native.Nat.{bit_or}
use go_txnpure.Classify.Scan.{
  Round, go_on, stop, after_comment, line_mark, block_mark, block_end, skip_blanks, has_prefix,
  index_byte, index, strip_round, strip_loop, strip_leading, ident_run_len, token_is,
  matches_folded, contains_write_token,
}
use go_txnpure.Classify.{
  StatementKind, other, begin, commit, write, rollback_kind, dispatch, classify_token,
  default_classifier,
}

abbrev with_kind : Bytes → StatementKind
with_kind rest = if contains_write_token rest then write else other

-- Each keyword with the kind that it gives a statement, which may depend on what follows it.
abbrev pub keywords : List (Bytes × (Bytes → StatementKind))
keywords =
    (codes "BEGIN", λ _. begin)
    ∷ (codes "START", λ _. begin)
    ∷ (codes "COMMIT", λ _. commit)
    ∷ (codes "END", λ _. commit)
    ∷ (codes "ROLLBACK", rollback_kind)
    ∷ (codes "ABORT", rollback_kind)
    ∷ (codes "CREATE", λ _. write)
    ∷ (codes "CALL", λ _. write)
    ∷ (codes "COPY", λ _. write)
    ∷ (codes "COMMENT", λ _. write)
    ∷ (codes "REPLACE", λ _. write)
    ∷ (codes "REVOKE", λ _. write)
    ∷ (codes "REFRESH", λ _. write)
    ∷ (codes "ALTER", λ _. write)
    ∷ (codes "INSERT", λ _. write)
    ∷ (codes "IMPORT", λ _. write)
    ∷ (codes "UPDATE", λ _. write)
    ∷ (codes "UPSERT", λ _. write)
    ∷ (codes "DELETE", λ _. write)
    ∷ (codes "DROP", λ _. write)
    ∷ (codes "DO", λ _. write)
    ∷ (codes "MERGE", λ _. write)
    ∷ (codes "TRUNCATE", λ _. write)
    ∷ (codes "GRANT", λ _. write)
    ∷ (codes "WITH", with_kind)
    ∷ []

-- The first entry with the word; a word that is in no entry is `other`.
abbrev pub kind_of_word : List (Bytes × (Bytes → StatementKind)) → Bytes → Bytes → StatementKind
kind_of_word [] word rest = other
kind_of_word ((keyword, kind) ∷ table) word rest =
    if bytes_eq word keyword then kind rest else kind_of_word table word rest

-- The specification: look the upper-cased leading word up.
abbrev pub reference_kind : Bytes → StatementKind
reference_kind query =
    let q = strip_leading query in
    let n = ident_run_len q in kind_of_word keywords (map to_upper (take n q)) (drop n q)

matches_folded-bytes_eq :
    (tok kw : Bytes)
    → (if length tok == length kw then matches_folded tok kw else false)
      ≡ bytes_eq (map to_upper tok) kw
unfolding matches_folded bytes_eq
matches_folded-bytes_eq [] [] = refl
matches_folded-bytes_eq [] (k ∷ kw) = ground arith
matches_folded-bytes_eq (c ∷ tok) [] = ground arith
matches_folded-bytes_eq (c ∷ tok) (k ∷ kw) = ground (arith, matches_folded-bytes_eq tok kw)

-- `tokenIs` is equality with the upper-cased token.
pub token_is-bytes_eq : (tok kw : Bytes) → token_is tok kw ≡ bytes_eq (map to_upper tok) kw
unfolding token_is
token_is-bytes_eq tok kw = matches_folded-bytes_eq tok kw

-- A test that holds of the bytes from 0 up to `k` more.
tests_bytes : (ℕ → Bool) → ℕ → Bool
tests_bytes test zero = true
tests_bytes test (suc k) = tests_bytes test k && test k

tests_bytes-at : (test : ℕ → Bool) (k c : ℕ) → c < k → tests_bytes test k ≡ true → test c ≡ true
unfolding tests_bytes
tests_bytes-at test zero c below h = absurd (omega arith)
tests_bytes-at test (suc k) c below h = ground (arith, tests_bytes-at test k c)

-- `c | 0x20` is the lower-case form of the letter `l` exactly if `c` is one of its two forms.
abbrev same_test : ℕ → ℕ → Bool
same_test l c = eq_bool (bit_or c 0x20 == l + 32) (to_upper c == l)
  where
    eq_bool : Bool → Bool → Bool
    eq_bool true b = b
    eq_bool false b = not b

abbrev letters : Bytes
letters = codes "BSCERAIUDMTGW"

abbrev all_of : Bytes → (ℕ → Bool) → Bool
all_of [] p = true
all_of (l ∷ ls) p = p l && all_of ls p

letter_table : tests_bytes (λ c. all_of letters (λ l. same_test l c)) 256 ≡ true
unfolding tests_bytes to_upper
letter_table = refl

test_letters : (c : ℕ) → c < 256 → all_of letters (λ l. same_test l c) ≡ true
test_letters c h = tests_bytes-at _ 256 c h letter_table

data IsLetter : ℕ → Type 0 where
  letter_b : IsLetter b'B'
  letter_s : IsLetter b'S'
  letter_c : IsLetter b'C'
  letter_e : IsLetter b'E'
  letter_r : IsLetter b'R'
  letter_a : IsLetter b'A'
  letter_i : IsLetter b'I'
  letter_u : IsLetter b'U'
  letter_d : IsLetter b'D'
  letter_m : IsLetter b'M'
  letter_t : IsLetter b'T'
  letter_g : IsLetter b'G'
  letter_w : IsLetter b'W'

letters-IsLetter : All IsLetter letters
letters-IsLetter = (
  letter_b,
  (
    letter_s,
    (
      letter_c,
      (
        letter_e,
        (
          letter_r,
          (
            letter_a,
            (letter_i, (letter_u, (letter_d, (letter_m, (letter_t, (letter_g, (letter_w, tt))))))),
          ),
        ),
      ),
    ),
  ),
)

-- Neither form of the byte is a letter of the list.
abbrev Misses : ℕ → Bytes → Type 0
Misses x = All (λ l. ((bit_or x 0x20 == l + 32) ≡ false) × ((to_upper x == l) ≡ false))

abbrev Hits : ℕ → Type 0
Hits x = (l : ℕ) × IsLetter l × (bit_or x 0x20 ≡ l + 32) × (to_upper x ≡ l)

find_letter :
    (x : ℕ) (ls : Bytes)
    → All IsLetter ls
    → all_of ls (λ l. same_test l x) ≡ true
    → Hits x ⊎ Misses x ls
find_letter x [] known h = inr tt
find_letter x (l ∷ ls) known h = elim (Bool-cases (to_upper x == l)) [
  | inl hit ↦ inl (l, known.0, ground arith, ground arith)
  | inr miss ↦ elim (find_letter x ls known.1 (ground arith)) [
    | inl found ↦ inl found
    | inr none_of ↦ inr ((ground arith, miss), none_of)
  ]
]

dispatch-letter :
    {l : ℕ} (x : ℕ) (tok rest : Bytes)
    → IsLetter l
    → to_upper x ≡ l
    → dispatch (l + 32) (x ∷ tok) rest ≡ kind_of_word keywords (map to_upper (x ∷ tok)) rest
unfolding dispatch bytes_eq
dispatch-letter x tok rest letter_b h = simp token_is-bytes_eq (rw h (ground arith))
dispatch-letter x tok rest _ h = simp token_is-bytes_eq (rw h (ground arith))

dispatch-other :
    (x : ℕ) (tok rest : Bytes)
    → Misses x letters
    → dispatch (bit_or x 0x20) (x ∷ tok) rest ≡ kind_of_word keywords (map to_upper (x ∷ tok)) rest
unfolding dispatch bytes_eq
dispatch-other x tok rest h = ground arith

dispatch-kind_of_word :
    (x : ℕ) (tok rest : Bytes)
    → x < 256
    → dispatch (bit_or x 0x20) (x ∷ tok) rest ≡ kind_of_word keywords (map to_upper (x ∷ tok)) rest
dispatch-kind_of_word x tok rest h =
    elim (find_letter x letters letters-IsLetter (test_letters x h)) [
      | inl (l, known, low, up) ↦ rw low (dispatch-letter x tok rest known up)
      | inr none_of ↦ dispatch-other x tok rest none_of
    ]

classify_token-kind_of_word :
    (tok rest : Bytes)
    → IsBytes tok
    → classify_token tok rest ≡ kind_of_word keywords (map to_upper tok) rest
unfolding classify_token bytes_eq
classify_token-kind_of_word [] rest h = refl
classify_token-kind_of_word (x ∷ tok) rest h = dispatch-kind_of_word x tok rest h.0

IsBytes-take : (n : ℕ) (q : Bytes) → IsBytes q → IsBytes (take n q)
IsBytes-take zero q h = tt
IsBytes-take (suc n) [] h = tt
IsBytes-take (suc n) (x ∷ q) h = (h.0, IsBytes-take n q h.1)

IsBytes-drop : (n : ℕ) (q : Bytes) → IsBytes q → IsBytes (drop n q)
IsBytes-drop zero q h = h
IsBytes-drop (suc n) [] h = tt
IsBytes-drop (suc n) (x ∷ q) h = IsBytes-drop n q h.1

IsBytes-skip_blanks : (q : Bytes) → IsBytes q → IsBytes (skip_blanks q)
unfolding skip_blanks
IsBytes-skip_blanks [] h = tt
IsBytes-skip_blanks (x ∷ q) h = ground (arith, IsBytes-skip_blanks q h.1)

abbrev RoundIsBytes : Round → Type 0
RoundIsBytes (go_on q) = IsBytes q
RoundIsBytes (stop q) = IsBytes q

after_comment-IsBytes :
    (q : Bytes) (width : ℕ) (at : Option ℕ) → IsBytes q → RoundIsBytes (after_comment q width at)
after_comment-IsBytes q width none h = tt
after_comment-IsBytes q width (some i) h = IsBytes-drop (i + width) q h

strip_round-IsBytes : (q : Bytes) → IsBytes q → RoundIsBytes (strip_round q)
unfolding strip_round
strip_round-IsBytes q h = elim (Bool-cases (has_prefix q line_mark)) [
  | inl line ↦ rw line (after_comment-IsBytes q 1 (index_byte q b'\n') h)
  | inr no_line ↦ elim (Bool-cases (has_prefix q block_mark)) [
    | inl block ↦ rw (no_line, block) (after_comment-IsBytes q 2 (index q block_end) h)
    | inr no_block ↦ rw (no_line, no_block) h
  ]
]

strip_loop-IsBytes : (fuel : ℕ) (q : Bytes) → IsBytes q → IsBytes (strip_loop fuel q)
unfolding strip_loop
strip_loop-IsBytes zero q h = h
strip_loop-IsBytes (suc fuel) q h =
    step (strip_round (skip_blanks q)) (strip_round-IsBytes _ (IsBytes-skip_blanks q h))
      (λ rest. strip_loop-IsBytes fuel rest)
  where
    step :
        (r : Round)
        → RoundIsBytes r
        → ((rest : Bytes) → IsBytes rest → IsBytes (strip_loop fuel rest))
        → IsBytes (elim r [ go_on rest ↦ strip_loop fuel rest | stop rest ↦ rest ])
    step (go_on rest) k next = next rest k
    step (stop rest) k next = k

-- On every query of bytes the classifier gives the kind that the keyword table has for the
-- upper-cased leading word.
pub default_classifier-reference :
    (query : Bytes) → IsBytes query → default_classifier query ≡ reference_kind query
unfolding default_classifier
default_classifier-reference query h = classify_token-kind_of_word _ _ (
    IsBytes-take (ident_run_len (strip_leading query)) (strip_leading query)
      (unfold strip_leading in strip_loop-IsBytes (suc (length query)) query h))
