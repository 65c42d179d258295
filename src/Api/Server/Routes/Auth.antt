-- ===== src/Api/Server/Routes/Auth.antt =====
-- Each route that nobody is signed in for keeps the accounts and the tokens consistent.
use udesa_x_users_api.Common.{not, Bool, Option, Text}
use udesa_x_users_api.Config.{Settings}
use udesa_x_users_api.Model.Problem.{problem}
use udesa_x_users_api.Platform.{Platform}
use udesa_x_users_api.World.Ensures.{Keeps, ◌▹◌, raise_if-Keeps, pure-Keeps}
use udesa_x_users_api.Api.Schemas.{check_handle}
use udesa_x_users_api.Api.Bodies.{Libraries, Headers, validation_failed, check_new_password}
use udesa_x_users_api.Api.Replies.{
  registered, verified, reset, accepted, no_content, signed_in, register_response, login_response,
  admin_login_response,
}
use udesa_x_users_api.Api.Routes.Auth
use udesa_x_users_api.Api.Server.Callers.{bearer-Keeps}
use udesa_x_users_api.Api.Server.Fields.{
  field-Keeps, not_empty-Keeps, email_field-Keeps, confirmed_password-Keeps,
}
use udesa_x_users_api.Integrity.{IsConsistent}
use udesa_x_users_api.Integrity.Sessions.{
  login-Keeps, admin_login-Keeps, refresh-Keeps, logout-Keeps,
}
use udesa_x_users_api.Integrity.Accounts.{
  register-Keeps, resend_verification-Keeps, forgot_password-Keeps, reset_password-Keeps,
  verify_email-Keeps,
}

module _ ⦃p : Platform⦄ (lib : Libraries) (settings : Settings) (headers : Headers) where
  pub register_call-Keeps :
      (email handle password : Text) (terms_accepted : Bool)
      → Keeps IsConsistent (Auth.register lib settings email handle password terms_accepted)
  unfolding Auth.register
  register_call-Keeps email handle password terms_accepted =
      email_field-Keeps lib email ▹ λ email _. field-Keeps (check_handle handle) ▹ λ handle _.
      field-Keeps (check_new_password password) ▹ λ password _.
      raise_if-Keeps (not terms_accepted) (problem validation_failed) ▹ λ _ _.
      register-Keeps settings email handle password ▹ λ user _.
      pure-Keeps (registered (register_response user))

  pub verify_call-Keeps : (token : Text) → Keeps IsConsistent (Auth.verify token)
  unfolding Auth.verify
  verify_call-Keeps token = not_empty-Keeps token ▹ λ token _.
      verify_email-Keeps token ▹ λ user _. pure-Keeps (verified user.handle)

  pub verify_from_link_call-Keeps :
      (token : Text) → Keeps IsConsistent (Auth.verify_from_link token)
  unfolding Auth.verify_from_link
  verify_from_link_call-Keeps token =
      verify_email-Keeps token ▹ λ user _. pure-Keeps (verified user.handle)

  pub resend_verification_call-Keeps :
      (email : Text) → Keeps IsConsistent (Auth.resend_verification lib settings email)
  unfolding Auth.resend_verification
  resend_verification_call-Keeps email = email_field-Keeps lib email ▹ λ email _.
      resend_verification-Keeps settings email ▹ λ _ _. pure-Keeps accepted

  pub refresh_call-Keeps :
      (refresh_token : Text) → Keeps IsConsistent (Auth.refresh_session settings refresh_token)
  unfolding Auth.refresh_session
  refresh_call-Keeps refresh_token = not_empty-Keeps refresh_token ▹ λ refresh_token _.
      refresh-Keeps settings refresh_token ▹ λ session _.
      pure-Keeps (signed_in (login_response session))

  pub forgot_password_call-Keeps :
      (identifier : Text) → Keeps IsConsistent (Auth.forgot_password settings identifier)
  unfolding Auth.forgot_password
  forgot_password_call-Keeps identifier = not_empty-Keeps identifier ▹ λ identifier _.
      forgot_password-Keeps settings identifier ▹ λ _ _. pure-Keeps accepted

  pub login_call-Keeps :
      (identifier password : Text) → Keeps IsConsistent (Auth.login settings identifier password)
  unfolding Auth.login
  login_call-Keeps identifier password = not_empty-Keeps identifier ▹ λ identifier _.
      not_empty-Keeps password ▹ λ password _.
      login-Keeps settings identifier password ▹ λ session _.
      pure-Keeps (signed_in (login_response session))

  pub admin_login_call-Keeps :
      (email password : Text) → Keeps IsConsistent (Auth.admin_login lib settings email password)
  unfolding Auth.admin_login
  admin_login_call-Keeps email password = email_field-Keeps lib email ▹ λ email _.
      not_empty-Keeps password ▹ λ password _.
      admin_login-Keeps settings email password ▹ λ session _.
      pure-Keeps (signed_in (admin_login_response session))

  pub logout_call-Keeps :
      (refresh_token : Option Text)
      → Keeps IsConsistent (Auth.logout settings headers refresh_token)
  unfolding Auth.logout
  logout_call-Keeps refresh_token = bearer-Keeps headers.authorization ▹ λ token _.
      logout-Keeps settings token refresh_token ▹ λ _ _. pure-Keeps no_content

  pub reset_password_call-Keeps :
      (token password confirmation : Text)
      → Keeps IsConsistent (Auth.reset_password settings token password confirmation)
  unfolding Auth.reset_password
  reset_password_call-Keeps token password confirmation = not_empty-Keeps token ▹ λ token _.
      confirmed_password-Keeps password confirmation ▹ λ password _.
      reset_password-Keeps settings token password ▹ λ user _. pure-Keeps (reset user.handle)
