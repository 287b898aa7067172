-- ===== src/Baseline/Files.antt =====
-- baseline.go: Save and LoadBaseline. The file system and encoding/json are parameters.
use go_txnpure.Base.{nat_eq, Bytes, codes, bytes_Eq, Option, none, some, List, [], ◌∷◌, ◌++◌, map}
use go_txnpure.Baseline.{Baseline, entries_of, baseline_from_entries}
use go_txnpure.Identity.{ViolationKey}

abbrev pub baseline_file_comment : Bytes
baseline_file_comment =
    codes
      "txnpure baseline: (scope, op) pairs that already ran side effects inside transactions when txnpure was adopted. Their violations are tolerated until fixed; new violations still fail. Remove entries as call sites get fixed (the ratchet only goes down); regenerate deliberately with Baseline.Save, never automatically."

-- The text of a baseline file, as encoding/json takes it.
pub record BaselineEntry : Type 0 where
  pub scope : Bytes
  pub kind : Bytes
  pub name : Bytes

pub record BaselineFile : Type 0 where
  pub comment : Bytes
  pub entries : List BaselineEntry

pub data Result {ℓ κ} (E : Type ℓ) (A : Type κ) : Type (ℓ ⊔ κ) where
  ok : A → Result E A
  err : E → Result E A

-- What fmt.Errorf makes with the verb %w.
pub record WrappedError (E : Type 0) : Type 0 where
  pub prefix : Bytes
  pub cause : E

abbrev pub wrap_error : {E : Type 0} → Bytes → E → WrappedError E
wrap_error prefix cause = record { prefix = prefix; cause = cause }

-- os.WriteFile, os.ReadFile, json.MarshalIndent and json.Unmarshal. `D` is the state of the file
-- system, `E` an error.
pub record Files (D E : Type 0) : Type 0 where
  pub write_file : Bytes → Bytes → D → Option E × D
  pub read_file : Bytes → D → Result E Bytes
  pub marshal : BaselineFile → Result E Bytes
  pub unmarshal : Bytes → Result E BaselineFile

-- The conversions between a key and an entry.
abbrev pub entry_of : ViolationKey → BaselineEntry
entry_of k = record { scope = k.scope; kind = k.kind; name = k.name }

abbrev pub key_of_entry : BaselineEntry → ViolationKey
key_of_entry e = record { scope = e.scope; kind = e.kind; name = e.name }

unfoldable pub file_of : Baseline → BaselineFile
unfolding entries_of
file_of b = record { comment = baseline_file_comment; entries = map entry_of (entries_of b) }

module _ {D E : Type 0} (files : Files D E) where
  abbrev pub written : Option E × D → Option (WrappedError E) × D
  written (none, d) = (none, d)
  written (some e, d) = (some (wrap_error (codes "txnpure: write baseline file: ") e), d)

  abbrev pub save_data : Bytes → D → Result E Bytes → Option (WrappedError E) × D
  save_data path d (err e) = (some (wrap_error (codes "txnpure: marshal baseline: ") e), d)
  save_data path d (ok text) = written (files.write_file path (text ++ b'\n' ∷ []) d)

  unfoldable pub save : Baseline → Bytes → D → Option (WrappedError E) × D
  unfolding file_of
  save b path d = save_data path d (files.marshal (file_of b))

  abbrev pub loaded : Bytes → Result E BaselineFile → Result (WrappedError E) Baseline
  loaded path (err e) =
      err (wrap_error (codes "txnpure: parse baseline file " ++ path ++ codes ": ") e)
  loaded path (ok f) = ok (baseline_from_entries (map key_of_entry f.entries))

  abbrev pub load_data : Bytes → Result E Bytes → Result (WrappedError E) Baseline
  load_data path (err e) = err (wrap_error (codes "txnpure: read baseline file: ") e)
  load_data path (ok text) = loaded path (files.unmarshal text)

  unfoldable pub load_baseline : Bytes → D → Result (WrappedError E) Baseline
  unfolding baseline_from_entries
  load_baseline path d = load_data path (files.read_file path d)
