-- ===== src/Api/Routes/Auth.antt =====
-- src/users_api/api/{auth,admin_auth,password_reset}.py: the routes that nobody is signed in for.
use udesa_x_users_api.Common.{not, Bool, Option, Text}
use udesa_x_users_api.Config.{Settings}
use udesa_x_users_api.Model.Problem.{problem}
use udesa_x_users_api.Platform.{Platform}
use udesa_x_users_api.World.Exec.{Action, pure, raise, raise_if, ◌>>=◌, ◌>>◌}
use udesa_x_users_api.Service.Auth.Registration
use udesa_x_users_api.Service.Auth.Login
use udesa_x_users_api.Service.Auth.Refresh
use udesa_x_users_api.Service.Auth.Logout
use udesa_x_users_api.Service.PasswordReset
use udesa_x_users_api.Api.Schemas.{check_handle}
use udesa_x_users_api.Api.Bodies.{
  Libraries, Headers, Authorization, bearer_token, rejected, validation_failed, check_new_password,
  check_not_empty, field, not_empty, email_field, confirmed_password,
}
use udesa_x_users_api.Api.Replies.{
  Reply, registered, verified, reset, accepted, no_content, signed_in, register_response,
  login_response, admin_login_response,
}
use udesa_x_users_api.Api.Request.{Answer, catch_reused}

module _ ⦃p : Platform⦄ where
  -- `BearerDep`
  abbrev pub bearer : Authorization → Action Text
  bearer (bearer_token token) = pure token
  bearer (rejected x) = raise (problem x)

module _ ⦃p : Platform⦄ (lib : Libraries) (settings : Settings) where
  unfoldable pub register : Text → Text → Text → Bool → Action Reply
  unfolding check_handle check_new_password
  register email handle password terms_accepted = do
    email ← email_field lib email
    handle ← field (check_handle handle)
    password ← field (check_new_password password)
    raise_if (not terms_accepted) (problem validation_failed)
    user ← Registration.register settings email handle password
    pure (registered (register_response user))

  unfoldable pub resend_verification : Text → Action Reply
  resend_verification email = do
    email ← email_field lib email
    Registration.resend_verification settings email
    pure accepted

  unfoldable pub admin_login : Text → Text → Action Reply
  unfolding check_not_empty
  admin_login email password = do
    email ← email_field lib email
    password ← not_empty password
    session ← Login.admin_login settings email password
    pure (signed_in (admin_login_response session))

module _ ⦃p : Platform⦄ (settings : Settings) where
  unfoldable pub login : Text → Text → Action Reply
  unfolding check_not_empty
  login identifier password = do
    identifier ← not_empty identifier
    password ← not_empty password
    session ← Login.login settings identifier password
    pure (signed_in (login_response session))

  unfoldable pub refresh_session : Text → Action Reply
  unfolding check_not_empty
  refresh_session refresh_token = do
    refresh_token ← not_empty refresh_token
    session ← Refresh.refresh settings refresh_token
    pure (signed_in (login_response session))

  -- The reuse of a token is answered and not raised.
  unfoldable pub refresh : Text → Action (Answer Reply)
  unfolding refresh_session catch_reused
  refresh refresh_token = catch_reused (refresh_session refresh_token)

  unfoldable pub logout : Headers → Option Text → Action Reply
  logout headers refresh_token = do
    token ← bearer headers.authorization
    Logout.logout settings token refresh_token
    pure no_content

  unfoldable pub forgot_password : Text → Action Reply
  unfolding check_not_empty
  forgot_password identifier = do
    identifier ← not_empty identifier
    PasswordReset.forgot_password settings identifier
    pure accepted

  unfoldable pub reset_password : Text → Text → Text → Action Reply
  unfolding check_not_empty confirmed_password
  reset_password token password password_confirmation = do
    token ← not_empty token
    password ← confirmed_password password password_confirmation
    user ← PasswordReset.reset_password settings token password
    pure (reset user.handle)

module _ ⦃p : Platform⦄ where
  unfoldable pub verify : Text → Action Reply
  unfolding check_not_empty
  verify token = do
    token ← not_empty token
    user ← Registration.verify_email token
    pure (verified user.handle)

  -- The link of the email: its token has no rule.
  unfoldable pub verify_from_link : Text → Action Reply
  verify_from_link token = do user ← Registration.verify_email token; pure (verified user.handle)
