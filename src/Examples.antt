-- ===== src/Examples.antt =====
-- Concrete runs of the theorems, on small values in place of the database, the SDK and the clock.
mod Samples
mod Manager
mod Goroutines
mod Connections
mod Lifetimes
mod Servings
mod Exports
mod Handling
mod CustomQueries
mod Settings
mod Endpoints
mod Endings
