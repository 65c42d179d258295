-- ===== src/Api.antt =====
-- src/users_api/api: the transaction around a request, who is calling, and the routes.
pub mod Request
pub mod Schemas
pub mod Bodies
pub mod Replies
pub mod Routes
pub mod Server
pub mod Health
pub mod CurrentUser
pub mod Seed
