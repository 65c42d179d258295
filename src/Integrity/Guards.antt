-- ===== src/Integrity/Guards.antt =====
-- The guards, the counters of failures and what draws at random: no table changes.
use udesa_x_users_api.Common.{refl, Option, some, Text, String, arith, leb}
use udesa_x_users_api.Config.{Settings}
use udesa_x_users_api.Model.Account.{User}
use udesa_x_users_api.Model.Problem.{problem}
use udesa_x_users_api.Platform.{Platform}
use udesa_x_users_api.World.Ensures.{
  Keeps, ◌▹◌, raise-Ensures, raise_if-Keeps, if-Ensures, pure-Keeps,
}
use udesa_x_users_api.Security.{
  hash_password, verify_password, generate_emailed_token, generate_refresh_token,
  generate_temporary_password, issue_access_token, decode_access_token,
}
use udesa_x_users_api.Service.Lockout.{
  LoginPolicy, policy_key, window_seconds, too_many_attempts, guard_lockout, register_failure,
}
use udesa_x_users_api.Service.Auth.Blocked.{deny_blocked_account, deny_expired_temporary_password}
use udesa_x_users_api.Service.Auth.Login.{
  invalid_credentials, hash_of, issue_session, prove_password,
}
use udesa_x_users_api.Service.CurrentPassword.{
  guard_attempts, forget_attempts, verify, attempts_key, policy, too_many_password_attempts,
  current_password_invalid,
}
use udesa_x_users_api.Integrity.{IsConsistent}
use udesa_x_users_api.Integrity.Redis.{quiet-Keeps, hit-Keeps, count-Keeps, reset-Keeps}

module _ ⦃p : Platform⦄ where
  pub hash_password-Keeps : (password : Text) → Keeps IsConsistent (hash_password password)
  unfolding hash_password
  hash_password-Keeps password = quiet-Keeps _ (λ w. refl)

  pub emailed_token-Keeps : Keeps IsConsistent generate_emailed_token
  unfolding generate_emailed_token
  emailed_token-Keeps = quiet-Keeps _ (λ w. refl)

  pub refresh_token-Keeps : Keeps IsConsistent generate_refresh_token
  unfolding generate_refresh_token
  refresh_token-Keeps = quiet-Keeps _ (λ w. refl)

  pub temporary_password-Keeps : Keeps IsConsistent generate_temporary_password
  unfolding generate_temporary_password
  temporary_password-Keeps = quiet-Keeps _ (λ w. refl)

  pub decode-Keeps : (token issuer : Text) → Keeps IsConsistent (decode_access_token token issuer)
  unfolding decode_access_token
  decode-Keeps token issuer = quiet-Keeps _ (λ w. refl)

  pub issue_session-Keeps :
      (settings : Settings) (user : User) → Keeps IsConsistent (issue_session settings user)
  unfolding issue_session issue_access_token
  issue_session-Keeps settings user = quiet-Keeps (issue_session settings user) (λ w. refl)

  pub deny_blocked-Keeps :
      (user : User) (title : String) → Keeps IsConsistent (deny_blocked_account user title)
  unfolding deny_blocked_account
  deny_blocked-Keeps user title = quiet-Keeps _ (λ w. ground arith)

  pub deny_expired-Keeps :
      (user : User) (title : String)
      → Keeps IsConsistent (deny_expired_temporary_password user title)
  unfolding deny_expired_temporary_password
  deny_expired-Keeps user title = quiet-Keeps _ (λ w. ground arith)

  pub guard_lockout-Keeps :
      (identifier : Text) (policy : LoginPolicy)
      → Keeps IsConsistent (guard_lockout identifier policy)
  unfolding guard_lockout
  guard_lockout-Keeps identifier policy = count-Keeps (policy_key policy identifier) ▹ λ failures _.
      raise_if-Keeps (leb policy.max_attempts failures) (problem (too_many_attempts policy))

  pub register_failure-Keeps :
      (identifier : Text) (policy : LoginPolicy)
      → Keeps IsConsistent (register_failure identifier policy)
  unfolding register_failure
  register_failure-Keeps identifier policy =
      hit-Keeps (policy_key policy identifier) (window_seconds policy) ▹ λ _ _. pure-Keeps tt

  pub prove_password-Keeps :
      (policy : LoginPolicy) (identifier password : Text) (user : Option User)
      → Keeps IsConsistent (prove_password policy identifier password user)
  unfolding prove_password
  prove_password-Keeps policy identifier password user =
      if-Ensures (verify_password password (hash_of user)) (λ _. pure-Keeps tt)
        (λ _. register_failure-Keeps identifier policy ▹ λ _ _.
          raise-Ensures (problem invalid_credentials))

  module _ (settings : Settings) (user : User) where
    guard_attempts-Keeps : Keeps IsConsistent (guard_attempts settings user)
    unfolding guard_attempts
    guard_attempts-Keeps = count-Keeps (attempts_key settings user) ▹ λ failures _.
        raise_if-Keeps (leb (policy settings).max_attempts failures)
          (problem (too_many_password_attempts (policy settings)))

    pub verify-Keeps :
        (current : Text) (title : String) → Keeps IsConsistent (verify settings user current title)
    unfolding verify
    verify-Keeps current title = guard_attempts-Keeps ▹ λ _ _.
        if-Ensures (verify_password current (some user.password_hash)) (λ _. pure-Keeps tt)
          (λ _. hit-Keeps (attempts_key settings user) (window_seconds (policy settings)) ▹ λ _ _.
            raise-Ensures (problem (current_password_invalid title)))

    pub forget_attempts-Keeps : Keeps IsConsistent (forget_attempts settings user)
    unfolding forget_attempts
    forget_attempts-Keeps = reset-Keeps (attempts_key settings user)
