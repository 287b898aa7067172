-- ===== src/Classify/Trivia.antt =====
-- What may stand before a statement: blanks and comments, which the classifier skips.
use go_txnpure.Base.{
  ◌==◌, Bool-cases, length, drop, length-append, length-drop-le, nat_eq, Bytes, bytes_Eq, ℕ, zero,
  suc, ◌+◌, ◌≤◌, ◌<◌, ◌≡◌, refl, sym, ap, ◌∙◌, inl, inr, true, false, Option, none, some, List, [],
  ◌∷◌, ◌++◌, arith,
}
use go_txnpure.Classify.Scan.{
  Round, go_on, stop, after_comment, line_mark, block_mark, block_end, is_blank, skip_blanks,
  has_prefix, index_byte, index, shift, strip_round, strip_loop, strip_leading,
}
use mathlib.Core.List.{append_assoc}
use go_txnpure.Classify.{default_classifier}

-- Blanks and comments. The body of a block comment holds no `*/`, and the comment does not begin
-- `/*/`: the classifier takes these three bytes for a whole comment.
pub data Trivia : Bytes → Type 0 where
  nothing : Trivia []
  blank : {c : ℕ} {t : Bytes} → is_blank c ≡ true → Trivia t → Trivia (c ∷ t)
  line :
      (body : Bytes) {t : Bytes}
      → index_byte body b'\n' ≡ none
      → Trivia t
      → Trivia (line_mark ++ (body ++ (b'\n' ∷ t)))
  block :
      (body : Bytes) {t : Bytes}
      → index (block_mark ++ (body ++ block_end)) block_end ≡ some (length body + 2)
      → Trivia t
      → Trivia (block_mark ++ (body ++ (block_end ++ t)))

pub skip_blanks-length : (q : Bytes) → length (skip_blanks q) ≤ length q
unfolding skip_blanks
skip_blanks-length [] = omega arith
skip_blanks-length (c ∷ q) = ground (arith, skip_blanks-length q)

shift-eq-some : (o : Option ℕ) (i : ℕ) → shift o ≡ some i → (j : ℕ) × (o ≡ some j) × (i ≡ suc j)
shift-eq-some none i h = cc
shift-eq-some (some j) i h = (j, refl, ground arith)

index_byte-lt : (q : Bytes) (b i : ℕ) → index_byte q b ≡ some i → i < length q
unfolding index_byte
index_byte-lt [] b i h = cc
index_byte-lt (c ∷ q) b i h = elim (Bool-cases (c == b)) [
  | inl hit ↦ ground arith
  | inr miss ↦
      let (j, e, s) = shift-eq-some (index_byte q b) i (rw miss at h) in
      omega (arith, index_byte-lt q b j e)
]

index-lt : (q p : Bytes) (i : ℕ) → has_prefix [] p ≡ false → index q p ≡ some i → i < length q
unfolding index
index-lt [] p i n h = ground arith
index-lt (c ∷ q) p i n h = elim (Bool-cases (has_prefix (c ∷ q) p)) [
  | inl hit ↦ ground arith
  | inr miss ↦
      let (j, e, s) = shift-eq-some (index q p) i (rw miss at h) in
      omega (arith, index-lt q p j n e)
]

abbrev pub Shrinks : Bytes → Round → Type 0
Shrinks q (go_on rest) = length rest < length q
Shrinks q (stop rest) = Unit

after_comment-Shrinks :
    (q : Bytes) (width : ℕ) (at : Option ℕ)
    → 0 < width
    → ((i : ℕ) → at ≡ some i → i < length q)
    → Shrinks q (after_comment q width at)
after_comment-Shrinks q width none w h = tt
after_comment-Shrinks q width (some i) w h = omega (arith, h i refl, length-drop-le (i + width) q)

pub strip_round-Shrinks : (q : Bytes) → Shrinks q (strip_round q)
unfolding strip_round
strip_round-Shrinks q = elim (Bool-cases (has_prefix q line_mark)) [
  | inl is_line ↦
      rw is_line
        (after_comment-Shrinks q 1 (index_byte q b'\n') (omega arith) (index_byte-lt q b'\n'))
  | inr no_line ↦ elim (Bool-cases (has_prefix q block_mark)) [
    | inl is_block ↦
        rw (no_line, is_block)
          (after_comment-Shrinks q 2 (index q block_end) (omega arith)
            (λ i. index-lt q block_end i (unfold has_prefix in refl)))
    | inr no_block ↦ rw (no_line, no_block) tt
  ]
]

-- More fuel than bytes changes nothing.
pub strip_loop_fuel :
    (f g : ℕ) (q : Bytes) → length q < f → length q < g → strip_loop f q ≡ strip_loop g q
unfolding strip_loop
strip_loop_fuel zero g q hf hg = absurd (omega arith)
strip_loop_fuel (suc f) zero q hf hg = absurd (omega arith)
strip_loop_fuel (suc f) (suc g) q hf hg =
    same (strip_round (skip_blanks q)) (strip_round-Shrinks (skip_blanks q))
      (λ rest. strip_loop_fuel f g rest)
  where
    same :
        (r : Round)
        → Shrinks (skip_blanks q) r
        → ((rest : Bytes)
            → length rest < f
            → length rest < g
            → strip_loop f rest ≡ strip_loop g rest)
        → elim r [ go_on rest ↦ strip_loop f rest | stop rest ↦ rest ]
          ≡ elim r [ go_on rest ↦ strip_loop g rest | stop rest ↦ rest ]
    same (go_on rest) s next =
        next rest (omega (arith, skip_blanks-length q)) (omega (arith, skip_blanks-length q))
    same (stop rest) s next = refl

abbrev pub resume : Round → Bytes
resume (go_on rest) = strip_leading rest
resume (stop rest) = rest

-- `stripLeading` is its loop with no bound on the rounds: the fuel never runs out.
pub strip_leading_step : (q : Bytes) → strip_leading q ≡ resume (strip_round (skip_blanks q))
unfolding strip_leading
strip_leading_step q = same (strip_round (skip_blanks q)) (strip_round-Shrinks (skip_blanks q))
  where
    same :
        (r : Round)
        → Shrinks (skip_blanks q) r
        → elim r [ go_on rest ↦ strip_loop (length q) rest | stop rest ↦ rest ] ≡ resume r
    same (go_on rest) s =
        strip_loop_fuel (length q) (suc (length rest)) rest (omega (arith, skip_blanks-length q))
          (omega arith)
    same (stop rest) s = refl

drop_append {ℓ} : {A : Type ℓ} (n : ℕ) (xs ys : List A) → n ≡ length xs → drop n (xs ++ ys) ≡ ys
drop_append zero [] ys h = refl
drop_append zero (x ∷ xs) ys h = absurd (omega arith)
drop_append (suc n) [] ys h = absurd (omega arith)
drop_append (suc n) (x ∷ xs) ys h = drop_append n xs ys (omega arith)

shift-eq-none : (o : Option ℕ) → shift o ≡ none → o ≡ none
shift-eq-none none h = refl
shift-eq-none (some i) h = cc

pub index_byte-append :
    (body t : Bytes) (b : ℕ)
    → index_byte body b ≡ none
    → index_byte (body ++ b ∷ t) b ≡ some (length body)
unfolding index_byte
index_byte-append [] t b h = ground arith
index_byte-append (c ∷ body) t b h = elim (Bool-cases (c == b)) [
  | inl hit ↦ ground arith
  | inr miss ↦
      rw (miss, index_byte-append body t b (shift-eq-none (index_byte body b) (rw miss at h)))
]

index-append :
    (q t : Bytes) (i : ℕ) → index q block_end ≡ some i → index (q ++ t) block_end ≡ some i
unfolding index has_prefix
index-append [] t i h = cc
index-append (c ∷ []) t i h = ground arith
index-append (c ∷ d ∷ q) t i h = elim (Bool-cases (has_prefix (c ∷ d ∷ q) block_end)) [
  | inl hit ↦ rw hit (rw hit at h)
  | inr miss ↦
      let (j, e, s) = shift-eq-some (index (d ∷ q) block_end) i (rw miss at h) in
      rw (miss, index-append (d ∷ q) t j e) (ground arith)
]

strip-blank : (c : ℕ) (q : Bytes) → is_blank c ≡ true → strip_leading (c ∷ q) ≡ strip_leading q
unfolding skip_blanks
strip-blank c q h = strip_leading_step (c ∷ q) ∙ (rw h (sym (strip_leading_step q)))

drop_middle {ℓ} :
    {A : Type ℓ} (n : ℕ) (xs mid ys : List A)
    → n ≡ length xs + length mid
    → drop n (xs ++ (mid ++ ys)) ≡ ys
drop_middle n xs mid ys h =
    rw (← append_assoc xs mid ys)
      (drop_append n (xs ++ mid) ys (omega (arith, length-append xs mid)))

strip-line :
    (body q : Bytes)
    → index_byte body b'\n' ≡ none
    → strip_leading (line_mark ++ (body ++ (b'\n' ∷ q))) ≡ strip_leading q
unfolding skip_blanks is_blank strip_round has_prefix index_byte
strip-line body q h =
    strip_leading_step (line_mark ++ (body ++ (b'\n' ∷ q)))
    ∙ rw (index_byte-append body q b'\n' h) (
        ap strip_leading (
          drop_middle (suc (suc (length body)) + 1) (line_mark ++ body) (b'\n' ∷ []) q
            (omega arith)))

block-index :
    (body q : Bytes)
    → index (block_mark ++ (body ++ block_end)) block_end ≡ some (length body + 2)
    → index (block_mark ++ (body ++ (block_end ++ q))) block_end ≡ some (length body + 2)
block-index body q h =
    rw (append_assoc body block_end q) at
      (index-append (block_mark ++ (body ++ block_end)) q (length body + 2) h)

strip-block :
    (body q : Bytes)
    → index (block_mark ++ (body ++ block_end)) block_end ≡ some (length body + 2)
    → strip_leading (block_mark ++ (body ++ (block_end ++ q))) ≡ strip_leading q
unfolding skip_blanks is_blank strip_round has_prefix
strip-block body q h =
    strip_leading_step (block_mark ++ (body ++ (block_end ++ q)))
    ∙ rw (block-index body q h) (
        ap strip_leading
          (drop_middle (length body + 2 + 2) (block_mark ++ body) block_end q (omega arith)))

pub strip-Trivia : {t : Bytes} (q : Bytes) → Trivia t → strip_leading (t ++ q) ≡ strip_leading q
strip-Trivia q nothing = refl
strip-Trivia q (blank {c} {t} h rest) = strip-blank c (t ++ q) h ∙ strip-Trivia q rest
strip-Trivia q (line body {t} h rest) =
    rw (append_assoc body (b'\n' ∷ t) q) (strip-line body (t ++ q) h ∙ strip-Trivia q rest)
strip-Trivia q (block body {t} h rest) =
    rw (append_assoc body (block_end ++ t) q) (strip-block body (t ++ q) h ∙ strip-Trivia q rest)

-- Blanks, line comments and those block comments that do not begin `/*/`, in front of a statement,
-- in any number and order, do not change its kind.
pub default_classifier-Trivia :
    {t : Bytes} (query : Bytes)
    → Trivia t
    → default_classifier (t ++ query) ≡ default_classifier query
unfolding default_classifier
default_classifier-Trivia query h = rw (strip-Trivia query h)
