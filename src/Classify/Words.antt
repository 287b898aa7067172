-- ===== src/Classify/Words.antt =====
-- `containsWriteToken` against a tokenizer: some word of the query is a write keyword.
use go_txnpure.Base.{
  if◌then◌else◌, Bool-cases, any, nat_eq, Bytes, bytes_Eq, ℕ, ◌≡◌, refl, sym, ap, ◌∙◌, inl, inr,
  false, ◌||◌, Option, none, some, List, [], ◌∷◌, ◌++◌, arith,
}
use mathlib.Core.List.{append_assoc, append-nil}
use go_txnpure.Classify.Scan.{
  is_ident_char, is_write_token, extend, closes, contains_loop, contains_write_token,
}

-- A byte in front of a list of words: it joins the first word, which may be empty.
abbrev join : ℕ → List Bytes → List Bytes
join c [] = (c ∷ []) ∷ []
join c (word ∷ words) = (c ∷ word) ∷ words

-- The query split at every byte that is no identifier byte; a word between two such is empty.
pub words : Bytes → List Bytes
words [] = [] ∷ []
words (c ∷ q) = if is_ident_char c then join c (words q) else [] ∷ words q

-- The same with `run` read already.
abbrev after_run : Option Bytes → List Bytes → List Bytes
after_run none ws = ws
after_run (some tok) [] = tok ∷ []
after_run (some tok) (word ∷ ws) = (tok ++ word) ∷ ws

after_run-join :
    (run : Option Bytes) (c : ℕ) (ws : List Bytes)
    → after_run run (join c ws) ≡ after_run (extend run c) ws
after_run-join none c [] = refl
after_run-join none c (word ∷ ws) = refl
after_run-join (some tok) c [] = refl
after_run-join (some tok) c (word ∷ ws) = ap (λ w. w ∷ ws) (sym (append_assoc tok (c ∷ []) word))

any-after_run-nil :
    (run : Option Bytes) (ws : List Bytes)
    → any is_write_token (after_run run ([] ∷ ws)) ≡ (closes run || any is_write_token ws)
unfolding is_write_token
any-after_run-nil none ws = refl
any-after_run-nil (some tok) ws = rw (append-nil tok)

contains_loop-words :
    (run : Option Bytes) (q : Bytes)
    → contains_loop run q ≡ any is_write_token (after_run run (words q))
unfolding contains_loop words
contains_loop-words run [] = closes-or run ∙ sym (any-after_run-nil run [])
  where
    closes-or : (r : Option Bytes) → closes r ≡ (closes r || false)
    closes-or r = ground arith
contains_loop-words run (c ∷ q) = elim (Bool-cases (is_ident_char c)) [
  | inl inside ↦
      rw (inside, contains_loop, after_run-join run c (words q))
        (contains_loop-words (extend run c) q)
  | inr outside ↦
      rw (outside, contains_loop, any-after_run-nil run (words q), contains_loop-words none q)
]

-- The scan finds a write keyword exactly if one of the maximal runs of identifier bytes is one.
pub contains_write_token-words : (q : Bytes) → contains_write_token q ≡ any is_write_token (words q)
unfolding contains_write_token
contains_write_token-words q = contains_loop-words none q
