-- ===== src/Service/AccountReview.antt =====
-- src/users_api/app/services/account_review.py
pub mod Statuses
use udesa_x_users_api.Common.{ℕ, none, not, ◌==◌, if◌then◌else◌}
use udesa_x_users_api.Config.{Settings}
use udesa_x_users_api.Model.Account.{active, under_review, User, status_eq, change_status}
use udesa_x_users_api.Model.Problem.{problem}
use udesa_x_users_api.Platform.{Platform}
use udesa_x_users_api.World.Exec.{Action, None, pure, or_raise, utc_now, ◌>>=◌, ◌>>◌}
use udesa_x_users_api.Store.Users
use udesa_x_users_api.Store.RefreshTokens
use udesa_x_users_api.Cache.Sessions
use udesa_x_users_api.Service.Auth.Login.{session_seconds}
use udesa_x_users_api.Service.AccountBlock.{account_not_found}

module _ ⦃p : Platform⦄ where
  unfoldable pub freeze : Settings → User → Action None
  freeze settings user = do
    at ← utc_now
    Users.update (change_status user under_review at none)
    Sessions.revoke_all user.id at (session_seconds settings)
    RefreshTokens.revoke_all user.id at

  unfoldable pub put_under_review : Settings → ℕ → Action None
  unfolding freeze
  put_under_review settings user_id = do
    found ← Users.get user_id
    user ← or_raise found (problem (account_not_found "No se pudo poner la cuenta en revisión"))
    if not (user.status == active) then pure tt else freeze settings user

  unfoldable pub lift_review : ℕ → Action None
  lift_review user_id = do
    found ← Users.get user_id
    user ← or_raise found (problem (account_not_found "No se pudo levantar la revisión"))
    if not (user.status == under_review)
        then pure tt
        else do at ← utc_now; Users.update (change_status user active at none)
