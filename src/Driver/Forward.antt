-- ===== src/Driver/Forward.antt =====
-- driver.go: the wrapped driver and connector, which give connections with a session of their own,
-- and the methods that only ask the driver below.
use go_txnpure.Base.{ℤ, nat_eq, Bytes, bytes_Eq, Bool, true, Option, none, some}
use go_txnpure.Driver.Below.{
  Error, err_skip, Outcome, fail, succeed, NamedValue, StmtBelow, ConnBelow, DriverBelow,
  ConnectorBelow,
}
use go_txnpure.Driver.Conn.{prepared}
use go_txnpure.Driver.Stmt.{Stmt, wrap_stmt}
use go_txnpure.Session.{Session, new_session}
use go_txnpure.State.{Env, Context, Detector}

-- A wrappedDriver, a wrappedConnector and a wrappedConn.
pub record WrappedDriver (D A R Q : Type 0) : Type 0 where
  pub det : Detector
  pub drv : DriverBelow D A R Q

pub record WrappedConnector (D A R Q : Type 0) : Type 0 where
  pub det : Detector
  pub connector : ConnectorBelow D A R Q

pub record WrappedConn (D A R Q : Type 0) : Type 0 where
  pub det : Detector
  pub conn : ConnBelow D A R Q
  pub session : Session

module _ {D A R Q : Type 0} where
  unfoldable pub wrap : Detector → DriverBelow D A R Q → WrappedDriver D A R Q
  wrap det drv = record { det = det; drv = drv }

  unfoldable pub wrap_connector : Detector → ConnectorBelow D A R Q → WrappedConnector D A R Q
  wrap_connector det c = record { det = det; connector = c }

  -- The connection of the driver below, with a session of its own.
  abbrev pub wrapped :
      Detector → Outcome (ConnBelow D A R Q) × D → Outcome (WrappedConn D A R Q) × D
  wrapped det (o, db) = elim o.error [
    | some e ↦ (fail e, db)
    | none ↦ elim o.value [
      | none ↦ (record { value = none; error = none }, db)
      | some conn ↦ (succeed (record { det = det; conn = conn; session = new_session }), db)
    ]
  ]

  unfoldable pub driver_open : WrappedDriver D A R Q → Bytes → D → Outcome (WrappedConn D A R Q) × D
  driver_open w name db = wrapped w.det (w.drv.open_name name db)

  unfoldable pub connector_connect :
      WrappedConnector D A R Q → Context → D → Outcome (WrappedConn D A R Q) × D
  connector_connect w ctx db = wrapped w.det (w.connector.connect ctx db)

  unfoldable pub connector_driver : WrappedConnector D A R Q → WrappedDriver D A R Q
  connector_driver w = record { det = w.det; drv = w.connector.driver }

  unfoldable pub conn_prepare :
      Detector → Env → ConnBelow D A R Q → Bytes → D → Outcome (StmtBelow D A R Q × Stmt) × D
  unfolding wrap_stmt
  conn_prepare det env c query db = prepared det env query (c.prepare query db)

  unfoldable pub conn_close : ConnBelow D A R Q → D → Option Error × D
  conn_close c db = c.close db

  unfoldable pub conn_ping : ConnBelow D A R Q → Context → D → Option Error × D
  conn_ping c ctx db = elim c.ping [ some f ↦ f ctx db | none ↦ (none, db) ]

  unfoldable pub conn_reset_session : ConnBelow D A R Q → Context → D → Option Error × D
  conn_reset_session c ctx db = elim c.reset_session [ some f ↦ f ctx db | none ↦ (none, db) ]

  unfoldable pub conn_is_valid : ConnBelow D A R Q → D → Bool
  conn_is_valid c db = elim c.is_valid [ some f ↦ f db | none ↦ true ]

  unfoldable pub conn_check_named_value :
      ConnBelow D A R Q → NamedValue A → D → Option Error × NamedValue A × D
  conn_check_named_value c nv db = elim c.check_named_value [
    | some f ↦ f nv db
    | none ↦ (some err_skip, nv, db)
  ]

  unfoldable pub stmt_close : StmtBelow D A R Q → D → Option Error × D
  stmt_close below db = below.close db

  unfoldable pub stmt_num_input : StmtBelow D A R Q → ℤ
  stmt_num_input below = below.num_input

  -- The statement below is asked first, and then its connection.
  unfoldable pub stmt_check_named_value :
      StmtBelow D A R Q → ConnBelow D A R Q → NamedValue A → D → Option Error × NamedValue A × D
  stmt_check_named_value below c nv db = elim below.check_named_value [
    | some f ↦ f nv db
    | none ↦ elim c.check_named_value [ some f ↦ f nv db | none ↦ (some err_skip, nv, db) ]
  ]
