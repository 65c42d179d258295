-- ===== src/Api/Routes/Internal.antt =====
-- src/users_api/api/internal.py: the routes that only the other services call.
use udesa_x_users_api.Common.{ℕ}
use udesa_x_users_api.Config.{Settings}
use udesa_x_users_api.Platform.{Platform}
use udesa_x_users_api.World.Exec.{Action, pure, ◌>>=◌, ◌>>◌}
use udesa_x_users_api.Service.AccountReview
use udesa_x_users_api.Service.Profile
use udesa_x_users_api.Service.Audit
use udesa_x_users_api.Api.Bodies.{Headers}
use udesa_x_users_api.Api.Replies.{
  Reply, no_content, public_profile, identity, public_profile_response,
}
use udesa_x_users_api.Api.CurrentUser.{require_internal_token}

module _ ⦃p : Platform⦄ (settings : Settings) (headers : Headers) where
  unfoldable pub put_under_review : ℕ → Action Reply
  put_under_review user_id = do
    require_internal_token settings headers.internal_token
    AccountReview.put_under_review settings user_id
    pure no_content

  unfoldable pub lift_review : ℕ → Action Reply
  lift_review user_id = do
    require_internal_token settings headers.internal_token
    AccountReview.lift_review user_id
    pure no_content

  unfoldable pub get_public_profile : ℕ → Action Reply
  get_public_profile user_id = do
    require_internal_token settings headers.internal_token
    user ← Profile.public_profile user_id
    pure (public_profile (public_profile_response user))

  unfoldable pub administrator_identity : ℕ → Action Reply
  administrator_identity actor_id = do
    require_internal_token settings headers.internal_token
    actor ← Audit.administrator actor_id
    pure (identity (record { id = actor.id; email = actor.email }))
