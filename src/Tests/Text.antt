-- ===== src/Tests/Text.antt =====
-- Statements and their kinds.
use go_txnpure.Base.{
  ltb, any, nat_eq, Bytes, IsBytes, codes, bytes_eq, bytes_Eq, to_upper, ◌≡◌, refl, Bool, true,
  ◌&&◌, [], ◌∷◌, ◌++◌, arith,
}
use go_txnpure.Identity.{key_Eq}
use go_txnpure.Classify.{default_classifier, begin, rollback, write, other}
use go_txnpure.Classify.Reference.{reference_kind, default_classifier-reference}
use go_txnpure.Classify.Scan.{
  has_prefix, index, is_blank, is_ident_char, contains_write_token, is_write_token, index_byte,
  ident_run_len, strip_leading, token_is,
}
use go_txnpure.Classify.Trivia.{Trivia, default_classifier-Trivia}
use go_txnpure.Classify.Keywords.{Gap}
use go_txnpure.Classify.Names.{Form, Written, write_target-Form}
use go_txnpure.Classify.Target.{cross_conn_op_name, write_target}
use go_txnpure.Classify.Words.{words, contains_write_token-words}

kind_begin : default_classifier (codes "  -- tx\nbegin;") ≡ begin
unfolding default_classifier
kind_begin = refl

kind_savepoint : default_classifier (codes "ROLLBACK TO SAVEPOINT a") ≡ other
unfolding default_classifier
kind_savepoint = refl

kind_cte : default_classifier (codes "WITH t AS (SELECT 1) insert into x SELECT * FROM t") ≡ write
unfolding default_classifier
kind_cte = refl

name_insert : cross_conn_op_name (codes "insert into `orders` (id) values (1)") ≡ codes "orders"
unfolding cross_conn_op_name bytes_eq ident_run_len strip_leading is_ident_char to_upper token_is
name_insert = refl

below_256 : Bytes → Bool
below_256 [] = true
below_256 (c ∷ q) = ltb c 256 && below_256 q

below_bytes : (q : Bytes) → below_256 q ≡ true → IsBytes q
unfolding below_256
below_bytes [] h = tt
below_bytes (c ∷ q) h = (ground arith, below_bytes q (ground arith))

default_classifier-reference_example :
    default_classifier (codes "/* a */ with t as (delete from u) select 1")
    ≡ reference_kind (codes "/* a */ with t as (delete from u) select 1")
default_classifier-reference_example =
    default_classifier-reference (codes "/* a */ with t as (delete from u) select 1")
      (unfold below_256 in below_bytes (codes "/* a */ with t as (delete from u) select 1") refl)

comments : Trivia (codes " -- go\n/* x */")
unfolding is_blank index_byte index has_prefix
comments =
    Trivia.blank refl
      (Trivia.line (codes " go") refl (Trivia.block (codes " x ") refl Trivia.nothing))

default_classifier-Trivia_example :
    default_classifier (codes " -- go\n/* x */" ++ codes "COMMIT")
    ≡ default_classifier (codes "COMMIT")
default_classifier-Trivia_example = default_classifier-Trivia (codes "COMMIT") comments

contains_write_token-words_example :
    contains_write_token (codes "x AS (Delete FROM t)")
    ≡ any is_write_token (words (codes "x AS (Delete FROM t)"))
contains_write_token-words_example = contains_write_token-words (codes "x AS (Delete FROM t)")

one_blank : Gap (codes " ")
unfolding is_blank
one_blank = (Trivia.blank refl Trivia.nothing, λ e. cc)

name_quoted :
    write_target (
      codes ""
      ++ (codes "INSERT"
          ++ (codes " "
              ++ (codes "INTO" ++ (codes " " ++ (codes "\"MixedCase\"" ++ codes " (id)"))))))
    ≡ codes "MixedCase"
name_quoted =
    write_target-Form [] (codes "INSERT") (codes " ") (codes "INTO") (codes " ") Form.insert_into
      Trivia.nothing (unfold to_upper in (refl, λ e. cc)) one_blank
      (unfold to_upper in (refl, λ e. cc)) one_blank
      (Written.quoted b'"' (codes "MixedCase") refl (unfold index_byte in refl))

-- Two statements that the classifier takes for another one: the rollback to a savepoint, and the
-- commit behind a comment.
kind_rollback_work : default_classifier (codes "ROLLBACK WORK TO SAVEPOINT a") ≡ rollback
unfolding default_classifier
kind_rollback_work = refl

kind_comment_star : default_classifier (codes "/*/ x */ COMMIT") ≡ other
unfolding default_classifier
kind_comment_star = refl
