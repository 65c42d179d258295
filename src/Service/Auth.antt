-- ===== src/Service/Auth.antt =====
-- src/users_api/app/services/auth.py: registration, the two logins, refreshing and logging out.
pub mod Blocked
pub mod Registration
pub mod Login
pub mod Refresh
pub mod Logout
