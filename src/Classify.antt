-- ===== src/Classify.antt =====
-- classify.go: the kinds of statements, `DefaultClassifier` and `writeTarget`.
pub mod Scan
pub mod Target
pub mod Reference
pub mod Trivia
pub mod Ends
pub mod Words
pub mod Keywords
pub mod Names
use go_txnpure.Base.{
  bool_laws, or-false, or-true, or_assoc, and-false, ltb, leb, ◌==◌, if◌then◌else◌, ==_iff,
  Bool-cases, Option-cases, &&-true, length, get_or, get_elem?, set, take, drop, any, All,
  length-append, length-set, length-drop-le, take-append-drop, All-append, ℤ, pos, negsuc, pos_part,
  neg_part, sub_ℕ, ◌≤ℤ◌, leb_ℤ, eq_ℤ, max_int64, inc64, dec64, inc64-pos, dec64-pos, eq_ℤ_iff, Eq,
  nat_eq, Bytes, IsBytes, codes, bytes_eq, bytes_eq_refl, bytes_eq_iff, bytes_Eq, bytes_lt,
  to_upper, to_lower, lookup, insert, lookup-insert, update, insert_by, sort_by, count,
  count-sort_by, ℕ, zero, suc, ◌+◌, ◌-◌, ◌*◌, ◌/◌, ◌%◌, ◌^◌, ◌≤◌, ◌<◌, ◌≡◌, refl, sym, ap, ◌∙◌,
  fun_ext, ◌≢◌, ◌↔◌, ◌⊎◌, inl, inr, Bool, true, false, not, ◌&&◌, ◌||◌, Option, none, some, List,
  [], ◌∷◌, ◌++◌, map, arith,
}
use Prim.Native.Nat.{bit_or}
use Scan.{strip_leading, ident_run_len, token_is, contains_write_token}

pub data StatementKind : Type 0 where
  other begin commit rollback write : StatementKind

-- `String` of a kind.
unfoldable pub string_of : StatementKind → Bytes
string_of begin = codes "begin"
string_of commit = codes "commit"
string_of rollback = codes "rollback"
string_of write = codes "write"
string_of other = codes "other"

-- ROLLBACK TO [SAVEPOINT] does not end the transaction.
unfoldable pub rollback_kind : Bytes → StatementKind
rollback_kind rest =
    let rest' = strip_leading rest in
    if token_is (take (ident_run_len rest') rest') (codes "TO") then other else rollback

-- The switch on the lowered first byte of the token.
unfoldable pub dispatch : ℕ → Bytes → Bytes → StatementKind
dispatch first tok rest =
    if first == b'b'
    then if token_is tok (codes "BEGIN") then begin else other
    else if first == b's'
    then if token_is tok (codes "START") then begin else other
    else if first == b'c'
    then if token_is tok (codes "COMMIT")
      then commit
      else if token_is tok (codes "CREATE")
          || token_is tok (codes "CALL")
          || token_is tok (codes "COPY")
          || token_is tok (codes "COMMENT")
      then write
      else other
    else if first == b'e'
    then if token_is tok (codes "END") then commit else other
    else if first == b'r'
    then if token_is tok (codes "ROLLBACK")
      then rollback_kind rest
      else if token_is tok (codes "REPLACE")
          || token_is tok (codes "REVOKE")
          || token_is tok (codes "REFRESH")
      then write
      else other
    else if first == b'a'
    then if token_is tok (codes "ABORT")
      then rollback_kind rest
      else if token_is tok (codes "ALTER")
      then write
      else other
    else if first == b'i'
    then if token_is tok (codes "INSERT") || token_is tok (codes "IMPORT") then write else other
    else if first == b'u'
    then if token_is tok (codes "UPDATE") || token_is tok (codes "UPSERT") then write else other
    else if first == b'd'
    then if token_is tok (codes "DELETE")
        || token_is tok (codes "DROP")
        || token_is tok (codes "DO")
      then write
      else other
    else if first == b'm'
    then if token_is tok (codes "MERGE") then write else other
    else if first == b't'
    then if token_is tok (codes "TRUNCATE") then write else other
    else if first == b'g'
    then if token_is tok (codes "GRANT") then write else other
    else if first == b'w'
    then if token_is tok (codes "WITH") && contains_write_token rest then write else other
    else other

-- The empty token is `KindOther`; `tok[0] | 0x20` lowers the first byte of any other.
unfoldable pub classify_token : Bytes → Bytes → StatementKind
classify_token [] rest = other
classify_token (c ∷ tok) rest = dispatch (bit_or c 0x20) (c ∷ tok) rest

unfoldable pub default_classifier : Bytes → StatementKind
unfolding classify_token dispatch rollback_kind strip_leading ident_run_len token_is
    contains_write_token
default_classifier query =
    let q = strip_leading query in let n = ident_run_len q in classify_token (take n q) (drop n q)
