-- ===== src/Classify/Ends.antt =====
-- classify.go: the loop of `stripLeading` ends, and where it ends.
use go_txnpure.Base.{
  Bool-cases, length, nat_eq, Bytes, bytes_Eq, ℕ, zero, suc, ◌<◌, ◌≡◌, refl, inl, inr, false,
  Option, none, some, [], ◌∷◌, arith,
}
use go_txnpure.Classify.Scan.{
  Round, go_on, stop, after_comment, line_mark, block_mark, block_end, is_blank, skip_blanks,
  has_prefix, index_byte, index, strip_round, strip_loop, strip_leading,
}
use go_txnpure.Classify.Trivia.{skip_blanks-length, Shrinks, strip_round-Shrinks, strip_loop_fuel}

-- A text that begins with neither a blank nor a comment.
pub record Stripped (q : Bytes) : Type 0 where
  pub no_blank : skip_blanks q ≡ q
  pub no_line : has_prefix q line_mark ≡ false
  pub no_block : has_prefix q block_mark ≡ false

nil-Stripped : Stripped []
unfolding skip_blanks has_prefix
nil-Stripped = record { no_blank = refl; no_line = refl; no_block = refl }

skip_blanks_twice : (q : Bytes) → skip_blanks (skip_blanks q) ≡ skip_blanks q
unfolding skip_blanks
skip_blanks_twice [] = refl
skip_blanks_twice (c ∷ q) = elim (Bool-cases (is_blank c)) [
  | inl is_one ↦ rw is_one (skip_blanks_twice q)
  | inr none_there ↦ rw (none_there, none_there) refl
]

-- A round that stops has found no comment, or one without an end.
abbrev StopsStripped : Round → Type 0
StopsStripped (go_on rest) = Unit
StopsStripped (stop rest) = Stripped rest

after_comment-StopsStripped :
    (q : Bytes) (width : ℕ) (o : Option ℕ) → StopsStripped (after_comment q width o)
after_comment-StopsStripped q width none = nil-Stripped
after_comment-StopsStripped q width (some i) = tt

strip_round-StopsStripped : (q : Bytes) → skip_blanks q ≡ q → StopsStripped (strip_round q)
unfolding strip_round
strip_round-StopsStripped q h = elim (Bool-cases (has_prefix q line_mark)) [
  | inl is_line ↦ rw is_line (after_comment-StopsStripped q 1 (index_byte q b'\n'))
  | inr no_line ↦ elim (Bool-cases (has_prefix q block_mark)) [
    | inl is_block ↦ rw (no_line, is_block) (after_comment-StopsStripped q 2 (index q block_end))
    | inr no_block ↦
        rw (no_line, no_block) (record { no_blank = h; no_line = no_line; no_block = no_block })
  ]
]

strip_loop-Stripped : (fuel : ℕ) (q : Bytes) → length q < fuel → Stripped (strip_loop fuel q)
unfolding strip_loop
strip_loop-Stripped zero q h = absurd (omega arith)
strip_loop-Stripped (suc fuel) q h =
    at (strip_round (skip_blanks q)) (strip_round-Shrinks (skip_blanks q))
      (strip_round-StopsStripped (skip_blanks q) (skip_blanks_twice q))
      (λ rest. strip_loop-Stripped fuel rest)
  where
    at :
        (r : Round)
        → Shrinks (skip_blanks q) r
        → StopsStripped r
        → ((rest : Bytes) → length rest < fuel → Stripped (strip_loop fuel rest))
        → Stripped (elim r [ go_on rest ↦ strip_loop fuel rest | stop rest ↦ rest ])
    at (go_on rest) s d next = next rest (omega (arith, skip_blanks-length q))
    at (stop rest) s d next = d

-- The loop of stripLeading ends within one round more than the query has bytes, since more rounds
-- give the same text; and that text begins with neither a blank nor a comment.
pub strip_leading-Stripped :
    (q : Bytes) (rounds : ℕ)
    → length q < rounds
    → (strip_loop rounds q ≡ strip_leading q) × Stripped (strip_leading q)
unfolding strip_leading
strip_leading-Stripped q rounds h = (
  strip_loop_fuel rounds (suc (length q)) q h (omega arith),
  strip_loop-Stripped (suc (length q)) q (omega arith),
)
