-- ===== src/Integrity.antt =====
-- What the code takes for granted of the accounts that it reads, and keeps of those that it writes.
pub mod Statements
pub mod Tables
pub mod Redis
pub mod Guards
pub mod Sessions
pub mod Changes
pub mod Accounts
pub mod Owners
pub mod Administration
use udesa_x_users_api.Common.{
  ◌≡◌, Bool, true, false, not, ◌&&◌, ◌||◌, List, All, is_some, ◌==◌, Text,
}
use udesa_x_users_api.Text.{normalise}
use udesa_x_users_api.Model.Account.{
  User, active, suspended, status_eq, is_administrator, is_deleted,
}
use udesa_x_users_api.World.State.{Database}
use udesa_x_users_api.Store.Users.Unique.{UsersApart}
use udesa_x_users_api.Store.RefreshTokens.Laws.{HashesApart}

-- One account: the reason stands exactly beside a suspension; a status that is not the first has a
-- date; an administrator is never suspended or deleted, and is verified; only an administrator owes a
-- change of password, exactly while the temporary one has a deadline; the email and the handle are
-- stored as they are looked up.
pub record IsSound (u : User) : Type 0 where
  pub reason : is_some u.status_reason ≡ (u.status == suspended)
  pub dated : ((u.status == active) || is_some u.status_changed_at) ≡ true
  pub never_suspended : ((u.status == suspended) && is_administrator u) ≡ false
  pub never_deleted : (is_deleted u && is_administrator u) ≡ false
  pub checked : (is_administrator u && not u.is_email_verified) ≡ false
  pub due : u.must_change_password ≡ is_some u.temporary_password_expires_at
  pub due_role : (u.must_change_password && not (is_administrator u)) ≡ false
  pub email : normalise u.email ≡ u.email
  pub handle : normalise u.handle ≡ u.handle

pub record IsConsistent (db : Database) : Type 0 where
  pub apart : UsersApart db.users
  pub sound : All IsSound db.users
  pub tokens : HashesApart db.refresh_tokens
