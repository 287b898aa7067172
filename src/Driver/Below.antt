-- ===== src/Driver/Below.antt =====
-- What the wrapper calls of the driver below it, and what such a call returns.
use go_txnpure.Base.{
  ◌==◌, ℤ, nat_eq, Bytes, codes, bytes_Eq, ℕ, Bool, true, false, not, ◌&&◌, Option, none, some,
  List,
}
use go_txnpure.State.{Context}

-- An error, with what `errors.Is` says of it.
pub record Error : Type 0 where
  pub is_skip : Bool
  pub is_bad_conn : Bool
  pub text : Bytes

-- driver.ErrSkip
abbrev pub err_skip : Error
err_skip = record {
  is_skip = true;
  is_bad_conn = false;
  text = codes "driver: skip fast-path; continue as if unimplemented";
}

-- An error that the wrapper makes.
abbrev pub new_error : Bytes → Error
new_error text = record { is_skip = false; is_bad_conn = false; text = text }

-- A value and an error; each of them may be nil.
pub record Outcome {ℓ} (V : Type ℓ) : Type ℓ where
  pub value : Option V
  pub error : Option Error

abbrev pub fail {ℓ} : {V : Type ℓ} → Error → Outcome V
fail e = record { value = none; error = some e }

abbrev pub succeed {ℓ} : {V : Type ℓ} → V → Outcome V
succeed v = record { value = some v; error = none }

abbrev pub is_skip : Option Error → Bool
is_skip none = false
is_skip (some e) = e.is_skip

abbrev pub is_bad_conn : Option Error → Bool
is_bad_conn none = false
is_bad_conn (some e) = e.is_bad_conn

pub record NamedValue (A : Type 0) : Type 0 where
  pub name : Bytes
  pub value : A

-- driver.TxOptions
pub record TxOptions : Type 0 where
  pub isolation : ℕ
  pub read_only : Bool

abbrev pub is_default : TxOptions → Bool
is_default opts = (opts.isolation == 0) && not opts.read_only

-- A prepared statement below, with its optional interfaces. `D` is the state of the database, `A`
-- a value, `R` a result and `Q` the rows of a query.
pub record StmtBelow (D A R Q : Type 0) : Type 0 where
  pub close : D → Option Error × D
  pub num_input : ℤ
  pub check_named_value : Option (NamedValue A → D → Option Error × NamedValue A × D)
  pub exec : List A → D → Outcome R × D
  pub exec_context : Option (Context → List (NamedValue A) → D → Outcome R × D)
  pub query : List A → D → Outcome Q × D
  pub query_context : Option (Context → List (NamedValue A) → D → Outcome Q × D)

pub record TxBelow (D : Type 0) : Type 0 where
  pub commit : D → Option Error × D
  pub rollback : D → Option Error × D

-- A connection below, with its optional interfaces.
pub record ConnBelow (D A R Q : Type 0) : Type 0 where
  pub close : D → Option Error × D
  pub ping : Option (Context → D → Option Error × D)
  pub reset_session : Option (Context → D → Option Error × D)
  pub is_valid : Option (D → Bool)
  pub check_named_value : Option (NamedValue A → D → Option Error × NamedValue A × D)
  pub prepare : Bytes → D → Outcome (StmtBelow D A R Q) × D
  pub prepare_context : Option (Context → Bytes → D → Outcome (StmtBelow D A R Q) × D)
  pub begin_plain : D → Outcome (TxBelow D) × D
  pub begin_with : Option (Context → TxOptions → D → Outcome (TxBelow D) × D)
  pub exec : Option (Bytes → List A → D → Outcome R × D)
  pub exec_context : Option (Context → Bytes → List (NamedValue A) → D → Outcome R × D)
  pub query : Option (Bytes → List A → D → Outcome Q × D)
  pub query_context : Option (Context → Bytes → List (NamedValue A) → D → Outcome Q × D)

-- A driver and a connector below.
pub record DriverBelow (D A R Q : Type 0) : Type 0 where
  pub open_name : Bytes → D → Outcome (ConnBelow D A R Q) × D

pub record ConnectorBelow (D A R Q : Type 0) : Type 0 where
  pub connect : Context → D → Outcome (ConnBelow D A R Q) × D
  pub driver : DriverBelow D A R Q
