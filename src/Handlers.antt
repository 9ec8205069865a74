-- ===== src/Handlers.antt =====
-- plugin/handler_*.go: one function for each metric handler. A handler gets the client, the metric's
-- key, the named parameters and the extra parameters, and answers a value or an error.
pub mod Fetch
pub mod Outcomes
pub mod Server
pub mod Activity
pub mod Database
pub mod DbStat
pub mod Replication
pub mod Queries
pub mod CustomQuery
