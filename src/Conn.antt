-- ===== src/Conn.antt =====
-- plugin/conn.go: the connections and their manager.
pub mod Time
pub mod Manager
pub mod Query
pub mod Create
pub mod Dsn
pub mod NetUrl
pub mod Tls
