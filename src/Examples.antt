-- ===== src/Examples.antt =====
-- examples/: the two example programs, run on the library.
pub mod Orders
pub mod Checkout
pub mod Reported
