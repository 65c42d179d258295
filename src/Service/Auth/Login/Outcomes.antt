-- ===== src/Service/Auth/Login/Outcomes.antt =====
-- Each way in which the two logins end.
use udesa_x_users_api.Common.{
  ℕ, ◌≢◌, ◌≡◌, ◌⊎◌, inl, inr, ◌≤◌, ◌<◌, true, false, Option, none, some, Text, find?, arith,
  Option-cases,
}
use udesa_x_users_api.Text.{normalise}
use udesa_x_users_api.Config.{Settings}
use udesa_x_users_api.Model.Account.{User, can_log_in, temporary_password_expired}
use udesa_x_users_api.Model.Problem.{problem}
use udesa_x_users_api.Platform.{Platform}
use udesa_x_users_api.World.State.{World}
use udesa_x_users_api.World.Exec.{ok, err}
use udesa_x_users_api.Store.Users.{has_identifier, has_email, find_by_identifier}
use udesa_x_users_api.Cache.RateLimiter.{stored, marks_of, count, hit, reset}
use udesa_x_users_api.Cache.RateLimiter.Window.{result-hit}
use udesa_x_users_api.Security.{verify_password, issue_access_token}
use udesa_x_users_api.Service.Lockout.{
  LoginPolicy, policy_key, window_seconds, app_login_policy, guard_lockout, register_failure,
  too_many_attempts,
}
use udesa_x_users_api.Service.Auth.Blocked.{deny_blocked_account, deny_expired_temporary_password}
use udesa_x_users_api.Service.Auth.Login.{
  IssuedSession, claims_for, hash_of, invalid_credentials, admit, prove_password, login,
  issue_session, issue_refresh_token,
}

module _ ⦃p : Platform⦄ (identifier : Text) (w : World) where
  -- The failures that a door has on record for an identifier.
  abbrev pub failures : LoginPolicy → ℕ
  failures policy = marks_of (stored (policy_key policy identifier) w)

  abbrev pub named : Option User
  named = find? (has_identifier (normalise identifier)) w.db.users

  abbrev pub addressed : Option User
  addressed = find? (has_email (normalise identifier)) w.db.users

module _ ⦃p : Platform⦄ (settings : Settings) (identifier password : Text) (w : World) where
  -- An identifier with as many failures on record as the app's door allows is refused at that door,
  -- before any password is looked at, and nothing changes.
  pub login-locked :
      (app_login_policy settings).max_attempts ≤ failures identifier w (app_login_policy settings)
      → login settings identifier password w
        ≡ (err (problem (too_many_attempts (app_login_policy settings))), w)
  unfolding login guard_lockout count
  login-locked h = ground (arith, h)

  -- Below the limit, a password that does not prove the account, or an identifier of no account, gets
  -- one and the same refusal, and leaves one and the same trace: a mark on the identifier's counter.
  pub login-unproven :
      failures identifier w (app_login_policy settings) < (app_login_policy settings).max_attempts
      → (named identifier w ≡ none)
        ⊎ (verify_password password (hash_of (named identifier w)) ≡ false)
      → login settings identifier password w ≡ (
        err (problem invalid_credentials),
        (hit
            (policy_key (app_login_policy settings) identifier)
            (window_seconds (app_login_policy settings))
            w).1,
      )
  unfolding login guard_lockout count prove_password register_failure verify_password
      find_by_identifier
  login-unproven few unproven = ground (
    arith,
    unproven,
    result-hit (policy_key (app_login_policy settings) identifier)
        (window_seconds (app_login_policy settings)) w,
  )

  admit_sound :
      (policy : LoginPolicy) (user : User) (s : IssuedSession)
      → (admit settings policy identifier user w).0 ≡ ok s
      → (can_log_in user ≡ true)
        × (user.is_email_verified ≡ true)
        × (temporary_password_expired user w.clock ≡ false)
        × (s.access_token ≡ p.jwt_encode (claims_for settings user w))
  unfolding admit deny_blocked_account deny_expired_temporary_password issue_session
      issue_refresh_token issue_access_token reset
  admit_sound policy user s h = (ground arith, ground arith, ground arith, ground arith)

  login-unnamed :
      named identifier w ≡ none
      → (s : IssuedSession) → (login settings identifier password w).0 ≢ ok s
  unfolding login guard_lockout count prove_password register_failure find_by_identifier
      verify_password
  login-unnamed nobody s h = ground arith

  login-reaches :
      (user : User)
      → named identifier w ≡ some user
      → (s : IssuedSession) → (login settings identifier password w).0 ≡ ok s
      → (failures identifier w (app_login_policy settings)
          < (app_login_policy settings).max_attempts)
        × (verify_password password (some user.password_hash) ≡ true)
        × ((admit settings (app_login_policy settings) identifier user w).0 ≡ ok s)
  unfolding login guard_lockout count prove_password register_failure find_by_identifier
  login-reaches user found s h = (ground arith, ground arith, ground arith)

  -- A session is given at the app's door only below the limit of failures, and only to the stored
  -- account that the identifier names, with its password, when its status allows it to log in, its email
  -- is verified and its temporary password, if it has one, is in date. The access token is of that
  -- account.
  pub login_sound :
      (s : IssuedSession)
      → (login settings identifier password w).0 ≡ ok s
      → (user : User) × (failures identifier w (app_login_policy settings)
          < (app_login_policy settings).max_attempts)
        × (named identifier w ≡ some user)
        × (verify_password password (some user.password_hash) ≡ true)
        × (can_log_in user ≡ true)
        × (user.is_email_verified ≡ true)
        × (temporary_password_expired user w.clock ≡ false)
        × (s.access_token ≡ p.jwt_encode (claims_for settings user w))
  login_sound s h = elim (Option-cases (named identifier w)) [
    | inl nobody ↦ absurd (login-unnamed nobody s h)
    | inr (user, found) ↦
        let (few, proven, admitted) = login-reaches user found s h in
        let (allowed, checked, current, token) =
          admit_sound (app_login_policy settings) user s admitted in
        (user, few, found, proven, allowed, checked, current, token)
  ]
