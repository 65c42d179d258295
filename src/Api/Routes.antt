-- ===== src/Api/Routes.antt =====
-- The routes of src/users_api/api, each with the guards and the body that it declares. The guards run
-- before the body is read, as FastAPI resolves them.
pub mod Auth
pub mod Me
pub mod Backoffice
pub mod Internal
