-- ===== src/Benchgate.antt =====
-- internal/benchgate/main.go: the gate on benchmark output.
pub mod Float
pub mod Parse
pub mod Compare
pub mod Main
pub mod Exits
pub mod Highest
pub mod Suffix
pub mod Gathered
