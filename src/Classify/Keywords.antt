-- ===== src/Classify/Keywords.antt =====
-- classify.go: keywords in any case, with what stands between them.
use go_txnpure.Base.{
  leb, ◌==◌, &&-true, length, take, drop, All, nat_eq, Bytes, bytes_eq_refl, bytes_Eq, to_upper, ℕ,
  ◌≡◌, refl, ap, ◌∙◌, ◌≢◌, Bool, true, false, ◌&&◌, [], ◌∷◌, ◌++◌, map, arith,
}
use go_txnpure.Classify.Scan.{
  is_blank, skip_blanks, has_prefix, strip_round, stop, strip_leading, is_ident_char, ident_run_len,
}
use go_txnpure.Classify.Target.{first_token, skip_keyword}
use go_txnpure.Classify.Reference.{token_is-bytes_eq}
use go_txnpure.Classify.Trivia.{
  Trivia, nothing, blank, line, block, strip-Trivia, strip_leading_step, resume,
}

abbrev pub Idents : Bytes → Type 0
Idents = All (λ c. is_ident_char c ≡ true)

-- What may follow a word.
abbrev pub Ends : Bytes → Type 0
Ends [] = Unit
Ends (c ∷ q) = is_ident_char c ≡ false

pub take-word : (w r : Bytes) → take (length w) (w ++ r) ≡ w
take-word [] r = refl
take-word (c ∷ w) r = rw (take-word w r) refl

pub drop-word : (w r : Bytes) → drop (length w) (w ++ r) ≡ r
drop-word [] r = refl
drop-word (c ∷ w) r = drop-word w r

pub ident_run_len-word : (w r : Bytes) → Idents w → Ends r → ident_run_len (w ++ r) ≡ length w
unfolding ident_run_len
ident_run_len-word [] [] i e = refl
ident_run_len-word [] (c ∷ r) i e = rw e refl
ident_run_len-word (c ∷ w) r (i, is) e = rw (i, ident_run_len-word w r is e) refl

ident-plain :
    (c : ℕ)
    → is_ident_char c ≡ true
    → (is_blank c ≡ false) × ((c == b'-') ≡ false) × ((c == b'/') ≡ false)
unfolding is_ident_char is_blank
ident-plain c h = (ground arith, ground arith, ground arith)

-- A word is not stripped.
pub strip_leading-word :
    (c : ℕ) (q : Bytes) → is_ident_char c ≡ true → strip_leading (c ∷ q) ≡ c ∷ q
unfolding skip_blanks strip_round has_prefix
strip_leading-word c q h =
    let (unblank, dash, slash) = ident-plain c h in
    let plain : strip_round (skip_blanks (c ∷ q)) ≡ stop (c ∷ q) = rw (unblank, dash, slash) refl in
    strip_leading_step (c ∷ q) ∙ ap resume plain

blank-ident : (c : ℕ) → is_blank c ≡ true → is_ident_char c ≡ false
unfolding is_blank is_ident_char
blank-ident c h = ground arith

upper-ident :
    (c k : ℕ) → to_upper c ≡ k → (leb b'A' k && leb k b'Z') ≡ true → is_ident_char c ≡ true
unfolding to_upper is_ident_char
upper-ident c k h u = ground arith

abbrev pub all_upper : Bytes → Bool
all_upper [] = true
all_upper (k ∷ kw) = (leb b'A' k && leb k b'Z') && all_upper kw

pub upper-Idents : (w kw : Bytes) → map to_upper w ≡ kw → all_upper kw ≡ true → Idents w
upper-Idents [] kw h u = tt
upper-Idents (c ∷ w) [] h u = absurd cc
upper-Idents (c ∷ w) (k ∷ kw) h u =
    let (upper, uppers) = &&-true (leb b'A' k && leb k b'Z') (all_upper kw) u in
    let first : to_upper c ≡ k = cc in
    let rest : map to_upper w ≡ kw = cc in
    (upper-ident c k first upper, upper-Idents w kw rest uppers)

-- Blanks and comments between two words, of which there is one at least.
abbrev pub Gap : Bytes → Type 0
Gap t = Trivia t × (t ≢ [])

pub Gap-Ends : (t q : Bytes) → Gap t → Ends (t ++ q)
unfolding is_ident_char
Gap-Ends t q (nothing, some_gap) = absurd (some_gap refl)
Gap-Ends t q (blank {c} h rest, some_gap) = blank-ident c h
Gap-Ends t q (line body h rest, some_gap) = refl
Gap-Ends t q (block body h rest, some_gap) = refl

-- A keyword in any case.
abbrev pub Spells : Bytes → Bytes → Type 0
Spells w kw = (map to_upper w ≡ kw) × (w ≢ [])

pub strip_leading-Spells :
    (w kw q : Bytes) → Spells w kw → all_upper kw ≡ true → strip_leading (w ++ q) ≡ w ++ q
strip_leading-Spells [] kw q (e, n) u = absurd (n refl)
strip_leading-Spells (c ∷ w) kw q (e, n) u =
    strip_leading-word c (w ++ q) (upper-Idents (c ∷ w) kw e u).0

pub first_token-Spells :
    (w kw q : Bytes) → Spells w kw → all_upper kw ≡ true → Ends q → first_token (w ++ q) ≡ kw
unfolding first_token
first_token-Spells w kw q s u e =
    rw
      (
        strip_leading-Spells w kw q s u,
        ident_run_len-word w q (upper-Idents w kw s.0 u) e,
        take-word w q,
      )
      s.0

-- A keyword is skipped with the gap in front of it.
pub skip_keyword-Spells :
    (t w kw q : Bytes)
    → Trivia t
    → Spells w kw
    → all_upper kw ≡ true
    → Ends q
    → skip_keyword (t ++ (w ++ q)) kw ≡ (q, true)
unfolding skip_keyword
skip_keyword-Spells t w kw q gap s u e =
    rw
      (
        strip-Trivia (w ++ q) gap,
        strip_leading-Spells w kw q s u,
        ident_run_len-word w q (upper-Idents w kw s.0 u) e,
        take-word w q,
        drop-word w q,
        token_is-bytes_eq w kw,
        s.0,
        bytes_eq_refl kw,
      )
      refl
