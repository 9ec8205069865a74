-- ===== src/Metrics.antt =====
-- plugin/metrics.go: the metrics, their parameters and their handlers.
pub mod Keys
pub mod Params
pub mod Registry
pub mod Dispatch
pub mod Validator
