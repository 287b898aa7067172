-- ===== src/Driver.antt =====
-- driver.go: the wrapped driver. The driver below, with its database, is a parameter: each method
-- takes the state of the database and returns it changed.
pub mod Below
pub mod Stmt
pub mod Conn
pub mod Parity
pub mod Fallback
pub mod Once
pub mod Retry
pub mod Lifecycle
pub mod Forward
pub mod Legacy
pub mod Null
