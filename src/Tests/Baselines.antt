-- ===== src/Tests/Baselines.antt =====
-- A baseline saved to a file and loaded, with a small encoding in place of JSON: each byte of a string
-- goes up by one, and a zero ends the string.
use go_txnpure.Base.{
  if◌then◌else◌, All, nat_eq, Bytes, codes, bytes_eq, bytes_eq_refl, bytes_Eq, lookup, insert,
  lookup-insert, zero, suc, ◌≡◌, refl, sym, ap, ◌∙◌, true, false, Option, none, some, List, [], ◌∷◌,
  ◌++◌, map,
}
use mathlib.Core.List.{append_assoc, append-nil}
use go_txnpure.Baseline.{Baseline, baseline_from_violations, entry_keys, entries_of}
use go_txnpure.Baseline.Files.{
  BaselineEntry, BaselineFile, Result, ok, err, Files, save, load_baseline,
}
use go_txnpure.Baseline.Marks.{Distinct}
use go_txnpure.Baseline.RoundTrip.{
  Documented, Restored, IsTextKey, load_baseline-save-Restored, Adopted, load_baseline-save-Adopted,
}
use go_txnpure.Identity.{ViolationKey, key_Eq, key_eq}
use go_txnpure.Report.{Violation}
use go_txnpure.Reporter.{new_collecting}
use go_txnpure.Tests.{key_a, key_b}
use go_txnpure.Tests.Arrivals.{get_a}

abbrev encoded : Bytes → Bytes → Bytes
encoded s rest = map (λ c. suc c) s ++ 0 ∷ rest

abbrev entries_encoded : List BaselineEntry → Bytes → Bytes
entries_encoded [] rest = rest
entries_encoded (e ∷ es) rest =
    encoded e.scope (encoded e.kind (encoded e.name (entries_encoded es rest)))

abbrev strings_in : Bytes → Bytes → List Bytes
strings_in s [] = []
strings_in s (zero ∷ rest) = s ∷ strings_in [] rest
strings_in s (suc c ∷ rest) = strings_in (s ++ c ∷ []) rest

abbrev triples : List Bytes → List BaselineEntry
triples [] = []
triples (a ∷ []) = []
triples (a ∷ b ∷ []) = []
triples (a ∷ b ∷ c ∷ rest) = record { scope = a; kind = b; name = c } ∷ triples rest

abbrev decoded : List Bytes → Result Bytes BaselineFile
decoded [] = err (codes "unexpected end of input")
decoded (comment ∷ rest) = ok (record { comment = comment; entries = triples rest })

abbrev content_of : Option Bytes → Result Bytes Bytes
content_of none = err (codes "no such file")
content_of (some text) = ok text

-- A map from paths to texts.
abbrev disk : Files (List (Bytes × Bytes)) Bytes
disk = record {
  write_file = λ path text d. (none, insert path text d);
  read_file = λ path d. content_of (lookup path d);
  marshal = λ f. ok (encoded f.comment (entries_encoded f.entries []));
  unmarshal = λ text. decoded (strings_in [] text);
}

strings_in-encoded :
    (front s rest : Bytes) → strings_in front (encoded s rest) ≡ (front ++ s) ∷ strings_in [] rest
strings_in-encoded front [] rest = ap (λ l. l ∷ strings_in [] rest) (sym (append-nil front))
strings_in-encoded front (c ∷ s) rest =
    strings_in-encoded (front ++ c ∷ []) s rest
    ∙ ap (λ l. l ∷ strings_in [] rest) (append_assoc front (c ∷ []) s)

triples-entries_encoded :
    (es : List BaselineEntry) → triples (strings_in [] (entries_encoded es (10 ∷ []))) ≡ es
triples-entries_encoded [] = refl
triples-entries_encoded (e ∷ es) =
    let rest = entries_encoded es (10 ∷ []) in
    ap triples (
      strings_in-encoded [] e.scope (encoded e.kind (encoded e.name rest))
      ∙ ap (λ l. e.scope ∷ l)
          (strings_in-encoded [] e.kind (encoded e.name rest)
            ∙ ap (λ l. e.kind ∷ l) (strings_in-encoded [] e.name rest)))
    ∙ ap (λ l. e ∷ l) (triples-entries_encoded es)

encoded-append : (s rest more : Bytes) → encoded s rest ++ more ≡ encoded s (rest ++ more)
encoded-append s rest more = append_assoc (map (λ c. suc c) s) (0 ∷ rest) more

entries_encoded-append :
    (es : List BaselineEntry) (rest : Bytes)
    → entries_encoded es [] ++ rest ≡ entries_encoded es rest
entries_encoded-append [] rest = refl
entries_encoded-append (e ∷ es) rest =
    encoded-append e.scope _ rest
    ∙ ap (encoded e.scope) (
        encoded-append e.kind _ rest
        ∙ ap (encoded e.kind)
            (encoded-append e.name _ rest ∙ ap (encoded e.name) (entries_encoded-append es rest)))

-- Every string is kept.
abbrev Any : Bytes → Type 0
Any s = Unit

decoded_back :
    (f : BaselineFile)
    → decoded (strings_in [] (encoded f.comment (entries_encoded f.entries []) ++ 10 ∷ [])) ≡ ok f
decoded_back f =
    ap (λ text. decoded (strings_in [] text))
      (encoded-append f.comment (entries_encoded f.entries []) (10 ∷ [])
        ∙ ap (encoded f.comment) (entries_encoded-append f.entries (10 ∷ [])))
    ∙ ap decoded (strings_in-encoded [] f.comment (entries_encoded f.entries (10 ∷ [])))
    ∙ ap (λ es. ok (record { comment = f.comment; entries = es }))
        (triples-entries_encoded f.entries)

read_inserted :
    (path text : Bytes) (d : List (Bytes × Bytes))
    → disk.read_file path (insert path text d) ≡ ok text
read_inserted path text d = ap content_of (
    lookup-insert path path text d
    ∙ ap (λ b. if b then some text else lookup path d) (bytes_eq_refl path))

abbrev text_of : Result Bytes Bytes → Bytes
text_of (ok text) = text
text_of (err e) = e

disk-Documented : Documented disk Any
disk-Documented = record {
  reads_written = λ path text d d' h.
      ap (disk.read_file path) (sym (ap (λ r. r.1) h)) ∙ read_inserted path text d;
  keeps_comment = tt;
  decodes = λ f text comment_kept kept h.
      ap (λ t. decoded (strings_in [] (t ++ 10 ∷ []))) (sym (ap text_of h)) ∙ decoded_back f;
}

every_key_kept : (ks : List ViolationKey) → All (IsTextKey disk Any) ks
every_key_kept [] = tt
every_key_kept (k ∷ ks) = ((tt, tt, tt), every_key_kept ks)

abbrev two_entries : Baseline
two_entries = record { entries = (key_a, true) ∷ (key_b, false) ∷ [] }

abbrev file_name : Bytes
file_name = codes "baseline.json"

-- The disk behind a save on an empty one.
abbrev saved : Baseline → List (Bytes × Bytes)
saved b = (save disk b file_name []).1

two_keys-Distinct : Distinct (entry_keys two_entries.entries)
unfolding entry_keys key_eq bytes_eq
two_keys-Distinct = (refl, (refl, tt))

load_baseline-save-Restored_example :
    Restored disk Any two_entries (load_baseline disk file_name (saved two_entries))
load_baseline-save-Restored_example =
    load_baseline-save-Restored disk Any two_entries file_name [] (saved two_entries)
      disk-Documented two_keys-Distinct (every_key_kept (entries_of two_entries))
      (unfold save in refl)

abbrev calls_of_a : List Violation
calls_of_a = get_a ∷ get_a ∷ []

load_baseline-save-Adopted_example :
    Adopted disk Any calls_of_a new_collecting 5
      (load_baseline disk file_name (saved (baseline_from_violations calls_of_a)))
load_baseline-save-Adopted_example =
    load_baseline-save-Adopted disk Any calls_of_a new_collecting 5 file_name []
      (saved (baseline_from_violations calls_of_a)) disk-Documented
      (every_key_kept (entries_of (baseline_from_violations calls_of_a))) (unfold save in refl)
