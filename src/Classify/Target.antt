-- ===== src/Classify/Target.antt =====
-- classify.go: `writeTarget` and its helpers, and `crossConnOpName` of driver.go.
use go_txnpure.Base.{
  ◌==◌, if◌then◌else◌, take, drop, nat_eq, Bytes, codes, bytes_eq, bytes_Eq, to_upper, to_lower, ℕ,
  suc, Bool, true, false, ◌||◌, none, some, [], ◌∷◌, map,
}
use go_txnpure.Classify.Scan.{strip_leading, ident_run_len, is_ident_char, token_is, index_byte}

-- `strings.ToUpper` of identifier bytes, which are ASCII.
unfoldable pub first_token : Bytes → Bytes
first_token q = let q' = strip_leading q in map to_upper (take (ident_run_len q') q')

-- The rest behind the keyword and `true`, or the stripped query and `false`.
unfoldable pub skip_keyword : Bytes → Bytes → Bytes × Bool
skip_keyword q kw =
    let q' = strip_leading q in
    let n = ident_run_len q' in if token_is (take n q') kw then (drop n q', true) else (q', false)

unfoldable pub name_run_len : Bytes → ℕ
name_run_len [] = 0
name_run_len (c ∷ q) = if is_ident_char c || c == b'.' then suc (name_run_len q) else 0

-- The text up to the closing quote, or nothing if it is missing.
unfoldable pub quoted_name : Bytes → ℕ → Bytes
quoted_name q quote = elim (index_byte q quote) [ none ↦ [] | some end ↦ take end q ]

unfoldable pub name_at : Bytes → Bytes
name_at [] = []
name_at (c ∷ q) =
    if c == b'"' || c == b'`'
    then quoted_name q c
    else map to_lower (take (name_run_len (c ∷ q)) (c ∷ q))

unfoldable pub read_name : Bytes → Bytes
read_name q = name_at (strip_leading q)

-- The name behind a keyword that must be there.
unfoldable pub name_after : Bytes → Bytes → Bytes
name_after q kw = let (rest, found) = skip_keyword q kw in if found then read_name rest else []

unfoldable pub target_of : Bytes → Bytes → Bytes
target_of verb q =
    if bytes_eq verb (codes "INSERT")
      || bytes_eq verb (codes "REPLACE")
      || bytes_eq verb (codes "MERGE")
      || bytes_eq verb (codes "UPSERT")
    then name_after q (codes "INTO")
    else if bytes_eq verb (codes "DELETE")
    then name_after q (codes "FROM")
    else if bytes_eq verb (codes "UPDATE") || bytes_eq verb (codes "COPY")
    then read_name q
    else if bytes_eq verb (codes "TRUNCATE")
    then read_name (skip_keyword q (codes "TABLE")).0
    else []

unfoldable pub write_target : Bytes → Bytes
unfolding target_of name_after read_name name_at quoted_name name_run_len skip_keyword first_token
write_target query =
    let q = strip_leading query in target_of (first_token q) (drop (ident_run_len q) q)

abbrev or_write : Bytes → Bytes
or_write [] = codes "write"
or_write (c ∷ name) = c ∷ name

unfoldable pub cross_conn_op_name : Bytes → Bytes
unfolding write_target
cross_conn_op_name query = or_write (write_target query)
