-- ===== src/Baseline/RoundTrip.antt =====
-- baseline.go: a baseline that is saved and loaded, and the reporter that filters by it.
use go_txnpure.Base.{
  or-true, All, nat_eq, Bytes, bytes_Eq, lookup, ℕ, ◌≡◌, refl, sym, ap, ◌∙◌, ◌≢◌, Bool, true, false,
  ◌||◌, Option, none, some, List, [], ◌∷◌, ◌++◌, map,
}
use mathlib.Core.List.{append-nil}
use go_txnpure.Baseline.{
  Baseline, baseline_from_violations, baseline_from_entries, entry_keys, entries_of, unused_entries,
}
use go_txnpure.Baseline.Files.{
  BaselineEntry, BaselineFile, Result, ok, err, WrappedError, Files, entry_of, key_of_entry,
  file_of, save_data, baseline_file_comment, written, save, load_data, loaded, load_baseline,
}
use go_txnpure.Baseline.Marks.{
  has, Distinct, has-sort_keys, has-entry_keys, sort_keys-Distinct,
  entry_keys-baseline_from_entries, unused_keys-baseline_from_entries, has-baseline_from_entries,
}
use go_txnpure.Identity.{ViolationKey, key_Eq, key_eq, key_eq_iff, sort_keys}
use go_txnpure.Identity.Order.{sort_keys-perm, sort_keys-perm_self}
use go_txnpure.Report.{Violation, violation_key}
use go_txnpure.Reporter.{Collected, collecting, baseline}
use go_txnpure.Reporter.Filter.{
  has_key, used_after, is_some, unknown, receive_violations, receive_violations-baseline,
}

-- The strings that JSON keeps: `IsText`, which holds of valid UTF-8.
module _ {D E : Type 0} (files : Files D E) (IsText : Bytes → Type 0) where
  abbrev pub IsTextEntry : BaselineEntry → Type 0
  IsTextEntry e = IsText e.scope × IsText e.kind × IsText e.name

  abbrev pub IsTextKey : ViolationKey → Type 0
  IsTextKey k = IsText k.scope × IsText k.kind × IsText k.name

  -- What the file system and encoding/json document: a file whose strings are all such texts is
  -- decoded as it was encoded. The comment that Save writes is one, since it is ASCII.
  pub record Documented : Type 0 where
    pub reads_written :
        (path text : Bytes) (d d' : D)
        → files.write_file path text d ≡ (none, d')
        → files.read_file path d' ≡ ok text
    pub keeps_comment : IsText baseline_file_comment
    pub decodes :
        (f : BaselineFile) (text : Bytes)
        → IsText f.comment
        → All IsTextEntry f.entries
        → files.marshal f ≡ ok text
        → files.unmarshal (text ++ b'\n' ∷ []) ≡ ok f

  entries_kept : (ks : List ViolationKey) → map key_of_entry (map entry_of ks) ≡ ks
  entries_kept [] = refl
  entries_kept (k ∷ ks) = ap (λ l. k ∷ l) (entries_kept ks)

  entries-IsText : (ks : List ViolationKey) → All IsTextKey ks → All IsTextEntry (map entry_of ks)
  entries-IsText [] h = tt
  entries-IsText (k ∷ ks) (h, hs) = (h, entries-IsText ks hs)

  load_baseline-save :
      (b : Baseline) (path : Bytes) (d d' : D)
      → Documented
      → All IsTextKey (entries_of b)
      → save files b path d ≡ (none, d')
      → load_baseline files path d' ≡ ok (baseline_from_entries (entries_of b))
  unfolding save load_baseline
  load_baseline-save b path d d' laws text h = encoded (files.marshal (file_of b)) refl h
    where
      stored :
          (s : Bytes) (r : Option E × D)
          → files.marshal (file_of b) ≡ ok s
          → files.write_file path (s ++ b'\n' ∷ []) d ≡ r
          → written files r ≡ (none, d')
          → load_data files path (files.read_file path d')
            ≡ ok (baseline_from_entries (entries_of b))
      stored s (some e, d1) m w k = cc
      stored s (none, d1) m w k =
          ap (load_data files path)
            (laws.reads_written path (s ++ b'\n' ∷ []) d d' (w ∙ ap (λ r. (none, r.1)) k))
          ∙ ap (loaded files path) (
              laws.decodes (file_of b) s (unfold file_of in laws.keeps_comment)
                (unfold file_of in entries-IsText (entries_of b) text) m)
          ∙ ap (λ ks. ok (baseline_from_entries ks)) (unfold file_of in entries_kept (entries_of b))

      encoded :
          (r : Result E Bytes)
          → files.marshal (file_of b) ≡ r
          → save_data files path d r ≡ (none, d')
          → load_data files path (files.read_file path d')
            ≡ ok (baseline_from_entries (entries_of b))
      encoded (err e) m k = cc
      encoded (ok s) m k = stored s (files.write_file path (s ++ b'\n' ∷ []) d) m refl k

  -- What a load of the saved baseline gives.
  pub record Restored (b : Baseline) (r : Result (WrappedError E) Baseline) : Type 0 where
    pub found : Baseline
    pub is_found : r ≡ ok found
    pub same_entries : entries_of found ≡ entries_of b
    pub none_used : unused_entries found ≡ entries_of b

  -- A baseline that was saved without an error is loaded with the same entries in the same order, and
  -- none of them counts as used, if no key is in the map twice and the keys are texts that JSON keeps.
  -- A written file reads back what was written, and JSON decodes a file of such texts as it has
  -- encoded it.
  pub load_baseline-save-Restored :
      (b : Baseline) (path : Bytes) (d d' : D)
      → Documented
      → Distinct (entry_keys b.entries)
      → All IsTextKey (entries_of b)
      → save files b path d ≡ (none, d')
      → Restored b (load_baseline files path d')
  load_baseline-save-Restored b path d d' laws distinct text h = record {
    found = baseline_from_entries (entries_of b);
    is_found = load_baseline-save b path d d' laws text h;
    same_entries = unfold entries_of in (ap sort_keys rebuilt ∙ resorted);
    none_used =
        unfold entries_of unused_entries in
        (ap sort_keys (unused_keys-baseline_from_entries _) ∙ ap sort_keys rebuilt ∙ resorted);
  }
    where
      rebuilt :
          entry_keys (baseline_from_entries (sort_keys (entry_keys b.entries))).entries
          ≡ sort_keys (entry_keys b.entries)
      rebuilt = entry_keys-baseline_from_entries _ (sort_keys-Distinct _ distinct)

      resorted : sort_keys (sort_keys (entry_keys b.entries)) ≡ sort_keys (entry_keys b.entries)
      resorted = (sort_keys-perm _ _ (sort_keys-perm_self (entry_keys b.entries))).2

  has_after_map :
      (k : ViolationKey) (vs : List Violation) → has k (map violation_key vs) ≡ has_key k vs
  has_after_map k [] = refl
  has_after_map k (v ∷ vs) = ap (λ t. key_eq (violation_key v) k || t) (has_after_map k vs)

  from_violations :
      (vs : List Violation)
      → baseline_from_violations vs ≡ baseline_from_entries (map violation_key vs)
  unfolding baseline_from_violations baseline_from_entries
  from_violations vs = refl

  -- What the saved baseline of some violations knows.
  knows :
      (k : ViolationKey) (vs : List Violation)
      → is_some
          (lookup k (baseline_from_entries (entries_of (baseline_from_violations vs))).entries)
        ≡ has_key k vs
  unfolding entries_of
  knows k vs =
      has-baseline_from_entries k _
      ∙ has-sort_keys k _
      ∙ has-entry_keys k _
      ∙ ap (λ b. is_some (lookup k b.entries)) (from_violations vs)
      ∙ has-baseline_from_entries k (map violation_key vs)
      ∙ has_after_map k vs

  -- A baseline that knows every violation of a run passes none of them.
  unknown_none :
      (b : Baseline) (vs ws : List Violation)
      → ((k : ViolationKey) → is_some (lookup k b.entries) ≡ has_key k vs)
      → All (λ v. has_key (violation_key v) vs ≡ true) ws
      → unknown b ws ≡ []
  unknown_none b vs [] h m = refl
  unknown_none b vs (v ∷ ws) h (m, ms) = rw (h (violation_key v) ∙ m) (unknown_none b vs ws h ms)

  has_key-later :
      (k : ViolationKey) (v : Violation) (vs : List Violation)
      → has_key k vs ≡ true
      → has_key k (v ∷ vs) ≡ true
  has_key-later k v vs h = rw h (or-true _)

  All-later :
      (v : Violation) (vs ws : List Violation)
      → All (λ w. has_key (violation_key w) vs ≡ true) ws
      → All (λ w. has_key (violation_key w) (v ∷ vs) ≡ true) ws
  All-later v vs [] h = tt
  All-later v vs (w ∷ ws) (h, hs) = (has_key-later (violation_key w) v vs h, All-later v vs ws hs)

  has_own_key : (vs : List Violation) → All (λ v. has_key (violation_key v) vs ≡ true) vs
  has_own_key [] = tt
  has_own_key (v ∷ vs) = (
    ap (λ t. t || has_key (violation_key v) vs)
        ((key_eq_iff (violation_key v) (violation_key v)).1 refl),
    All-later v vs vs (has_own_key vs),
  )

  -- The adoption of a baseline: `loaded` is what a load gives, and `x` the reporter after the run.
  pub record Adopted (vs : List Violation) (c : Collected) (now : ℕ)
      (r : Result (WrappedError E) Baseline) : Type 0 where
    pub found : Baseline
    pub is_found : r ≡ ok found
    pub after : Baseline
    pub tolerated :
        receive_violations now (baseline (some found) (collecting c)) vs
        ≡ baseline (some after) (collecting c)
    pub no_stale_entry : (k : ViolationKey) → lookup k after.entries ≢ some false

  -- The baseline of a run's violations, saved without an error and loaded, tolerates the same run: not
  -- one of its violations reaches the reporter behind it, and then every entry has been used. The keys
  -- are texts that JSON keeps, a written file reads back what was written, and JSON decodes a
  -- file of such texts as it has encoded it.
  pub load_baseline-save-Adopted :
      (vs : List Violation) (c : Collected) (now : ℕ) (path : Bytes) (d d' : D)
      → Documented
      → All IsTextKey (entries_of (baseline_from_violations vs))
      → save files (baseline_from_violations vs) path d ≡ (none, d')
      → Adopted vs c now (load_baseline files path d')
  load_baseline-save-Adopted vs c now path d d' laws text h =
      let b = baseline_from_entries (entries_of (baseline_from_violations vs)) in
      let (after, passes, marks) = receive_violations-baseline now b c vs in
      record {
        found = b;
        is_found = load_baseline-save (baseline_from_violations vs) path d d' laws text h;
        after = after;
        tolerated =
            passes
            ∙ ap
                (λ l.
                  baseline (some after) (collecting (record c { violations = c.violations ++ l })))
                (unknown_none b vs vs (λ k. knows k vs) (has_own_key vs))
            ∙ ap (λ l. baseline (some after) (collecting (record c { violations = l })))
                (append-nil c.violations);
        no_stale_entry = λ k e. used k (lookup k b.entries) (knows k vs) (sym (marks k) ∙ e);
      }
    where
      used :
          (k : ViolationKey) (o : Option Bool)
          → is_some o ≡ has_key k vs
          → used_after k vs o ≡ some false
          → ⊥
      used k none e f = cc
      used k (some u) e f = clash (ap (λ t. some (u || t)) e ∙ f) (or-true u)
        where
          clash : some (u || true) ≡ some false → (u || true) ≡ true → ⊥
          clash g t = cc
