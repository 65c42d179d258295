-- ===== src/Tests.antt =====
-- Runs at concrete inputs, and the theorems at inputs that meet their hypotheses.
pub mod Demo
mod Fixtures
mod CacheRuns
mod SessionRuns
mod LoginRuns
mod AccountRuns
mod MessagingRuns
mod SearchRuns
mod ServerRuns
mod StoreRuns
