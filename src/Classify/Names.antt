-- ===== src/Classify/Names.antt =====
-- classify.go: the table that a write statement names.
use go_txnpure.Base.{
  ◌==◌, length, take, All, nat_eq, Bytes, codes, bytes_eq, bytes_Eq, to_lower, ℕ, ◌≡◌, refl, ap,
  ◌∙◌, Bool, true, false, ◌||◌, Option, none, some, [], ◌∷◌, ◌++◌, map, arith,
}
use go_txnpure.Classify.Scan.{
  stop, is_ident_char, is_blank, skip_blanks, has_prefix, index_byte, strip_round, strip_leading,
}
use mathlib.Core.List.{append_assoc}
use go_txnpure.Classify.Target.{
  name_run_len, name_at, quoted_name, read_name, name_after, target_of, write_target,
}
use go_txnpure.Classify.Trivia.{Trivia, strip-Trivia, strip_leading_step, resume, index_byte-append}
use go_txnpure.Classify.Keywords.{
  take-word, drop-word, ident_run_len-word, strip_leading-word, all_upper, upper-Idents, Gap,
  Gap-Ends, Spells, strip_leading-Spells, first_token-Spells, skip_keyword-Spells,
}

-- A table name, perhaps with a schema, and what may follow it.
abbrev is_name_char : ℕ → Bool
is_name_char c = is_ident_char c || c == b'.'

abbrev pub IsName : Bytes → Type 0
IsName [] = ⊥
IsName (c ∷ name) = (is_ident_char c ≡ true) × All (λ c. (is_ident_char c || c == b'.') ≡ true) name

abbrev pub NameEnds : Bytes → Type 0
NameEnds [] = Unit
NameEnds (c ∷ q) = (is_ident_char c || c == b'.') ≡ false

name_run_len-name :
    (name r : Bytes)
    → All (λ c. (is_ident_char c || c == b'.') ≡ true) name
    → NameEnds r
    → name_run_len (name ++ r) ≡ length name
unfolding name_run_len
name_run_len-name [] [] i e = refl
name_run_len-name [] (c ∷ r) i e = rw e refl
name_run_len-name (c ∷ name) r (i, is) e = rw (i, name_run_len-name name r is e) refl

unquoted : (c : ℕ) → is_ident_char c ≡ true → (c == b'"' || c == b'`') ≡ false
unfolding is_ident_char
unquoted c h = ground arith

read_name-IsName :
    (t name r : Bytes)
    → Trivia t
    → IsName name
    → NameEnds r
    → read_name (t ++ (name ++ r)) ≡ map to_lower name
unfolding read_name name_at
read_name-IsName t [] r gap n e = absurd n
read_name-IsName t (c ∷ name) r gap (i, is) e =
    let run = name_run_len-name (c ∷ name) r (rw i refl, is) e in
    rw (strip-Trivia (c ∷ (name ++ r)) gap, strip_leading-word c (name ++ r) i, unquoted c i)
      (ap (λ n. map to_lower (take n (c ∷ (name ++ r)))) run
        ∙ ap (map to_lower) (take-word (c ∷ name) r))

-- A quote starts no blank and no comment.
quote_plain :
    (quote : ℕ)
    → (quote == b'"' || quote == b'`') ≡ true
    → (is_blank quote ≡ false) × ((quote == b'-') ≡ false) × ((quote == b'/') ≡ false)
unfolding is_blank
quote_plain quote h = (ground arith, ground arith, ground arith)

strip_leading-quote :
    (quote : ℕ) (q : Bytes)
    → (quote == b'"' || quote == b'`') ≡ true
    → strip_leading (quote ∷ q) ≡ quote ∷ q
unfolding skip_blanks strip_round has_prefix
strip_leading-quote quote q h =
    let (unblank, dash, slash) = quote_plain quote h in
    let plain : strip_round (skip_blanks (quote ∷ q)) ≡ stop (quote ∷ q) =
      rw (unblank, dash, slash) refl in
    strip_leading_step (quote ∷ q) ∙ ap resume plain

quoted_name_lem :
    (body r : Bytes) (quote : ℕ)
    → index_byte body quote ≡ none
    → quoted_name (body ++ (quote ∷ r)) quote ≡ body
unfolding quoted_name
quoted_name_lem body r quote free =
    ap (λ (o : Option ℕ). elim o [ none ↦ [] | some end ↦ take end (body ++ (quote ∷ r)) ])
      (index_byte-append body r quote free)
    ∙ take-word body (quote ∷ r)

read_name-quoted :
    (t body r : Bytes) (quote : ℕ)
    → Trivia t
    → (quote == b'"' || quote == b'`') ≡ true
    → index_byte body quote ≡ none
    → read_name (t ++ (quote ∷ (body ++ (quote ∷ r)))) ≡ body
unfolding read_name name_at
read_name-quoted t body r quote gap h free =
    rw
      (
        strip-Trivia (quote ∷ (body ++ (quote ∷ r))) gap,
        strip_leading-quote quote (body ++ (quote ∷ r)) h,
        h,
      )
      (quoted_name_lem body r quote free)

-- A table as it is written, what follows it, and the target: an unquoted name, perhaps with a
-- schema, in lower case, and a quoted one as it stands between its quotes.
pub data Written : Bytes → Bytes → Bytes → Type 0 where
  plain : {name rest : Bytes} → IsName name → NameEnds rest → Written name rest (map to_lower name)
  quoted :
      {rest : Bytes} (quote : ℕ) (body : Bytes)
      → (quote == b'"' || quote == b'`') ≡ true
      → index_byte body quote ≡ none
      → Written (quote ∷ (body ++ (quote ∷ []))) rest body

read_name-Written :
    {name rest target : Bytes} (t : Bytes)
    → Trivia t
    → Written name rest target
    → read_name (t ++ (name ++ rest)) ≡ target
read_name-Written t gap (plain {name} {rest} n e) = read_name-IsName t name rest gap n e
read_name-Written t gap (quoted {rest} quote body h free) =
    rw (append_assoc body (quote ∷ []) rest) (read_name-quoted t body rest quote gap h free)

-- The statements with a preposition in front of the table.
pub data Form : Bytes → Bytes → Type 0 where
  insert_into : Form (codes "INSERT") (codes "INTO")
  replace_into : Form (codes "REPLACE") (codes "INTO")
  merge_into : Form (codes "MERGE") (codes "INTO")
  upsert_into : Form (codes "UPSERT") (codes "INTO")
  delete_from : Form (codes "DELETE") (codes "FROM")

Form-target_of :
    {kw prep : Bytes}
    → Form kw prep
    → (all_upper kw ≡ true)
      × (all_upper prep ≡ true)
      × ((q : Bytes) → target_of kw q ≡ name_after q prep)
unfolding target_of bytes_eq
Form-target_of insert_into = (refl, refl, λ q. refl)
Form-target_of replace_into = (refl, refl, λ q. refl)
Form-target_of merge_into = (refl, refl, λ q. refl)
Form-target_of upsert_into = (refl, refl, λ q. refl)
Form-target_of delete_from = (refl, refl, λ q. refl)

pub write_target-Form :
    {kw prep name rest target : Bytes} (t verb gap into gap' : Bytes)
    → Form kw prep
    → Trivia t
    → Spells verb kw
    → Gap gap
    → Spells into prep
    → Gap gap'
    → Written name rest target
    → write_target (t ++ (verb ++ (gap ++ (into ++ (gap' ++ (name ++ rest)))))) ≡ target
unfolding write_target name_after
write_target-Form {kw} {prep} {name} {rest} t verb gap into gap' form lead v g p g' n =
    let (kw_upper, prep_upper, dispatched) = Form-target_of form in
    let after = gap ++ (into ++ (gap' ++ (name ++ rest))) in
    let ends = Gap-Ends gap (into ++ (gap' ++ (name ++ rest))) g in
    rw
      (
        strip-Trivia (verb ++ after) lead,
        strip_leading-Spells verb kw after v kw_upper,
        first_token-Spells verb kw after v kw_upper ends,
        ident_run_len-word verb after (upper-Idents verb kw v.0 kw_upper) ends,
        drop-word verb after,
        dispatched after,
        skip_keyword-Spells gap into prep (gap' ++ (name ++ rest)) g.0 p prep_upper
            (Gap-Ends gap' (name ++ rest) g'),
      )
      (read_name-Written gap' g'.0 n)
