-- ===== src/Service.antt =====
-- src/users_api/app/services: the business rules.
pub mod Lockout
pub mod Auth
pub mod CurrentPassword
pub mod PasswordReset
pub mod PasswordChange
pub mod AccountDeletion
pub mod Audit
pub mod AccountBlock
pub mod AccountReview
pub mod Admins
pub mod Feedback
pub mod Preferences
pub mod Profile
pub mod Metrics
pub mod AdminUserAccounts
pub mod Search
