-- ===== src/Model.antt =====
-- src/users_api/app/models: accounts, tokens and what else the tables hold.
pub mod Account
pub mod Token
pub mod Event
pub mod Problem
