-- ===== src/World.antt =====
-- The state that a request works on, and the actions on it.
pub mod State
pub mod Exec
pub mod Ensures
