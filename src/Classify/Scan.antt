-- ===== src/Classify/Scan.antt =====
-- classify.go: the scanner of a query, from `tokenIs` and `stripLeading` to `containsWriteToken`.
-- A query is the list of its bytes, and a slice of it is a list again.
use go_txnpure.Base.{
  leb, ◌==◌, if◌then◌else◌, length, drop, nat_eq, Bytes, codes, bytes_Eq, to_upper, ℕ, zero, suc,
  ◌+◌, Bool, true, false, ◌&&◌, ◌||◌, Option, none, some, [], ◌∷◌, ◌++◌,
}

unfoldable pub is_blank : ℕ → Bool
is_blank c = c == b' ' || c == b'\t' || c == b'\r' || c == b'\n'

-- The inner loop of `stripLeading`.
unfoldable pub skip_blanks : Bytes → Bytes
unfolding is_blank
skip_blanks [] = []
skip_blanks (c ∷ q) = if is_blank c then skip_blanks q else c ∷ q

-- strings.HasPrefix
unfoldable pub has_prefix : Bytes → Bytes → Bool
has_prefix q [] = true
has_prefix [] (p ∷ ps) = false
has_prefix (c ∷ q) (p ∷ ps) = c == p && has_prefix q ps

abbrev pub shift : Option ℕ → Option ℕ
shift none = none
shift (some i) = some (suc i)

-- strings.IndexByte
unfoldable pub index_byte : Bytes → ℕ → Option ℕ
index_byte [] b = none
index_byte (c ∷ q) b = if c == b then some 0 else shift (index_byte q b)

-- strings.Index
unfoldable pub index : Bytes → Bytes → Option ℕ
index [] p = if has_prefix [] p then some 0 else none
index (c ∷ q) p = if has_prefix (c ∷ q) p then some 0 else shift (index q p)

abbrev pub line_mark : Bytes
line_mark = b'-' ∷ b'-' ∷ []

abbrev pub block_mark : Bytes
block_mark = b'/' ∷ b'*' ∷ []

abbrev pub block_end : Bytes
block_end = b'*' ∷ b'/' ∷ []

-- One round of the outer loop on a query without leading blanks: what is left behind a comment
-- (`go_on`), or the result.
pub data Round : Type 0 where
  go_on : Bytes → Round
  stop : Bytes → Round

abbrev pub after_comment : Bytes → ℕ → Option ℕ → Round
after_comment q width none = stop []
after_comment q width (some i) = go_on (drop (i + width) q)

unfoldable pub strip_round : Bytes → Round
strip_round q =
    if has_prefix q line_mark
    then after_comment q 1 (index_byte q b'\n')
    else if has_prefix q block_mark
    then after_comment q 2 (index q block_end)
    else stop q

-- The outer loop. Every round that goes on drops a byte, so the length of the query is fuel enough.
unfoldable pub strip_loop : ℕ → Bytes → Bytes
strip_loop zero q = q
strip_loop (suc fuel) q = elim (strip_round (skip_blanks q)) [
  | go_on rest ↦ strip_loop fuel rest
  | stop rest ↦ rest
]

unfoldable pub strip_leading : Bytes → Bytes
unfolding strip_loop strip_round skip_blanks has_prefix index_byte index
strip_leading q = strip_loop (suc (length q)) q

unfoldable pub is_ident_char : ℕ → Bool
is_ident_char c =
    (leb b'a' c && leb c b'z')
    || (leb b'A' c && leb c b'Z')
    || (leb b'0' c && leb c b'9')
    || c == b'_'

unfoldable pub ident_run_len : Bytes → ℕ
ident_run_len [] = 0
ident_run_len (c ∷ q) = if is_ident_char c then suc (ident_run_len q) else 0

-- The loop of `tokenIs`: the folded token against the keyword, byte by byte.
unfoldable pub matches_folded : Bytes → Bytes → Bool
matches_folded tok [] = true
matches_folded [] (k ∷ kw) = false
matches_folded (c ∷ tok) (k ∷ kw) = if to_upper c == k then matches_folded tok kw else false

unfoldable pub token_is : Bytes → Bytes → Bool
unfolding matches_folded to_upper
token_is tok kw = if length tok == length kw then matches_folded tok kw else false

unfoldable pub is_write_token : Bytes → Bool
unfolding token_is
is_write_token tok =
    if length tok == 5
    then token_is tok (codes "MERGE")
    else if length tok == 6
    then token_is tok (codes "INSERT")
      || token_is tok (codes "UPDATE")
      || token_is tok (codes "DELETE")
    else if length tok == 7
    then token_is tok (codes "REPLACE")
    else if length tok == 8
    then token_is tok (codes "TRUNCATE")
    else false

-- `start < 0` is `none`, and `q[start:i]` is the list in `some`.
abbrev pub extend : Option Bytes → ℕ → Option Bytes
extend none c = some (c ∷ [])
extend (some tok) c = some (tok ++ c ∷ [])

abbrev pub closes : Option Bytes → Bool
closes none = false
closes (some tok) = is_write_token tok

unfoldable pub contains_loop : Option Bytes → Bytes → Bool
contains_loop run [] = closes run
contains_loop run (c ∷ q) = elim (is_ident_char c) [
  | true ↦ contains_loop (extend run c) q
  | false ↦ closes run || contains_loop none q
]

unfoldable pub contains_write_token : Bytes → Bool
unfolding contains_loop is_ident_char is_write_token
contains_write_token q = contains_loop none q
