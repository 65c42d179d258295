-- ===== src/Store.antt =====
-- src/users_api/infrastructure/database: the repositories over PostgreSQL. A statement is read as what
-- it says of the rows: SELECT takes the first row that meets its condition in the order of insertion,
-- UPDATE changes the rows that meet it, and a row that repeats a unique column is refused.
pub mod Users
pub mod VerificationTokens
pub mod ResetTokens
pub mod RefreshTokens
pub mod Records
pub mod Searches
pub mod Cursors
pub mod AuditLog
