-- ===== src/Throttling.antt =====
-- The throttling handler (handler/throttling.go and handler/throttle.go): the goroutine that counts
-- requests, the goroutine that reports the counts, and the check of a request.
pub mod State
pub mod Ledger
pub mod Request
pub mod Buffers
pub mod Invariant
pub mod Accounting
pub mod Taken
pub mod Balance
pub mod Losses
pub mod Progress
mod Tests
