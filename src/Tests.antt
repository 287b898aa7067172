-- ===== src/Tests.antt =====
-- Runs of the model on concrete inputs, and the theorems at them.
pub mod Text
pub mod Histories
pub mod Drivers
pub mod Allowed
pub mod Reports
pub mod Arrivals
pub mod Bench
pub mod Baselines
pub mod Ledgers
pub mod Programs
pub mod Races
pub mod Totals
use go_txnpure.Base.{
  if◌then◌else◌, nat_eq, Bytes, codes, bytes_Eq, Option, none, some, List, [], ◌∷◌,
}
use go_txnpure.Classify.Scan.{contains_write_token}
use go_txnpure.Detector.{default_detector}
use go_txnpure.Identity.{Op, ViolationKey}
use go_txnpure.State.{Env, Context, background, with_scope, Detector}
use go_txnpure.System.{Call, starts, connects, executes, begins}

abbrev pub env : Env
env = record { time = 5; clock = 5; callers = λ n. [] }

-- One scope, two connections: the first begins a transaction and the second writes.
abbrev pub history : List (Env × Call)
history =
    (env, starts 0 (codes "pay") [])
    ∷ (env, connects)
    ∷ (env, connects)
    ∷ (env, begins 0 1)
    ∷ (env, executes 1 1 (codes "SELECT 1"))
    ∷ []

abbrev pub pay : Context
pay = with_scope 0 background

abbrev pub insert_orders : Bytes
insert_orders = codes "INSERT INTO orders VALUES (1)"

abbrev pub publishes : Bytes → Option Op
publishes q =
    if contains_write_token q then some (record { kind = codes "outbox"; name = q }) else none

abbrev pub checking : Detector
checking = record default_detector { stmt_checkers = publishes ∷ [] }

abbrev pub key_a : ViolationKey
key_a = record { scope = codes "pay"; kind = codes "http"; name = codes "GET a" }

abbrev pub key_b : ViolationKey
key_b = record { scope = codes "order"; kind = codes "http"; name = codes "GET a" }
