-- ===== src/Service/Auth/Registration/FirstLogin.antt =====
-- From registration to the first session.
use udesa_x_users_api.Common.{
  ◌<◌, ◌≡◌, ap, ◌∙◌, true, false, some, any, find?, Text, nat_eq, text_eq, arith,
}
use udesa_x_users_api.Text.{normalise}
use udesa_x_users_api.Config.{Settings}
use udesa_x_users_api.Model.Account.{User, can_log_in, is_deleted}
use udesa_x_users_api.Model.Problem.{problem}
use udesa_x_users_api.Platform.{Platform}
use udesa_x_users_api.World.State.{World}
use udesa_x_users_api.World.Exec.{ok, err}
use udesa_x_users_api.Store.Users.{has_identifier, find_by_identifier}
use udesa_x_users_api.Cache.RateLimiter.{count}
use udesa_x_users_api.Security.{verify_password}
use udesa_x_users_api.Security.Passwords.{verify_password-hash}
use udesa_x_users_api.Service.Lockout.{app_login_policy, guard_lockout}
use udesa_x_users_api.Service.Auth.Blocked.{deny_blocked_account}
use udesa_x_users_api.Service.Auth.Login.{account_not_verified, prove_password, admit, login}
use udesa_x_users_api.Service.Auth.Login.Outcomes.{failures}
use udesa_x_users_api.Service.Auth.Registration.{register}
use udesa_x_users_api.Service.Auth.Registration.Accounts.{
  registered, register-stores, register-ends,
}

module _ ⦃p : Platform⦄ (settings : Settings) (email handle password : Text) (w : World) where
  login_unverified :
      (spelling : Text) (w' : World)
      → find? (has_identifier (normalise spelling)) w'.db.users
        ≡ some (registered settings email handle password w)
      → verify_password password (some (p.argon2_hash w.drawn password)) ≡ true
      → failures spelling w' (app_login_policy settings) < (app_login_policy settings).max_attempts
      → login settings spelling password w' ≡ (err (problem account_not_verified), w')
  unfolding login guard_lockout count prove_password find_by_identifier admit deny_blocked_account
      can_log_in is_deleted
  login_unverified spelling w' found proven few = ground (arith, found, proven, few)

  -- Where no earlier account had the email for its email or handle, and the app's door is not shut: an
  -- account that has just been registered is refused with its own password, under every spelling of
  -- its email, and the refusal counts as no failure and changes nothing.
  pub register-login :
      (user : User) (spelling : Text)
      → (register settings email handle password w).0 ≡ ok user
      → normalise spelling ≡ normalise email
      → any (has_identifier (normalise email)) w.db.users ≡ false
      → failures spelling (register settings email handle password w).1 (app_login_policy settings)
        < (app_login_policy settings).max_attempts
      → login settings spelling password (register settings email handle password w).1
        ≡ (err (problem account_not_verified), (register settings email handle password w).1)
  register-login user spelling done same free few =
      let (_, _, _, is_registered) = register-ends settings email handle password w user done in
      let (_, _, _, _, found) =
        register-stores settings email handle password w user spelling done same free in
      login_unverified spelling (register settings email handle password w).1
        (found ∙ ap some is_registered) (verify_password-hash w.drawn password) few
