-- ===== src/Tests/LoginRuns.antt =====
-- The two logins and the lock.
use udesa_x_users_api.Common.{ℕ, ◌≡◌, ◌<◌, refl, inl, inr, [], ◌∷◌, none, some, true, false, arith}
use udesa_x_users_api.Model.Account.{User, can_log_in, temporary_password_expired}
use udesa_x_users_api.Model.Problem.{problem}
use udesa_x_users_api.World.Exec.{err}
use udesa_x_users_api.Cache.RateLimiter.{hit}
use udesa_x_users_api.Cache.RateLimiter.Window.{at_time}
use udesa_x_users_api.Service.Lockout.{
  policy_key, window_seconds, app_login_policy, too_many_attempts,
}
use udesa_x_users_api.Service.Auth.Login.{invalid_credentials, IssuedSession, claims_for, login}
use udesa_x_users_api.Service.Auth.Login.Outcomes.{failures, named, login_sound}
use udesa_x_users_api.Service.Auth.Login.LockingOut.{try_all, try_all-locks}
use udesa_x_users_api.Security.{verify_password}
use udesa_x_users_api.World.State.{World}
use udesa_x_users_api.Tests.Demo.{demo, settings, encode}
use udesa_x_users_api.Tests.Fixtures.{ana, with_user}

-- Five failures on record for the identifier of `ana`.
abbrev locked : World
locked = record (with_user ana) {
  redis =
      (
        policy_key (app_login_policy settings) (97 ∷ []),
        some (record { value = 5; deadline = none }),
      )
      ∷ [];
}

abbrev session : IssuedSession
session = record {
  access_token = encode (claims_for settings ana (with_user ana));
  refresh_token = 4 ∷ [];
  expires_in = 900;
}

login_sound_example :
    (user : User) × (failures (65 ∷ []) (with_user ana) (app_login_policy settings)
      < (app_login_policy settings).max_attempts)
    × (named (65 ∷ []) (with_user ana) ≡ some user)
    × (verify_password (5 ∷ []) (some user.password_hash) ≡ true)
    × (can_log_in user ≡ true)
    × (user.is_email_verified ≡ true)
    × (temporary_password_expired user 1000000000 ≡ false)
    × (session.access_token ≡ encode (claims_for settings user (with_user ana)))
unfolding login udesa_x_users_api.Service.Lockout.guard_lockout
    udesa_x_users_api.Cache.RateLimiter.count app_login_policy
    udesa_x_users_api.Store.Users.find_by_identifier udesa_x_users_api.Security.verify_password
    udesa_x_users_api.Common.beq_text udesa_x_users_api.Text.normalise
    udesa_x_users_api.Service.Auth.Login.admit
    udesa_x_users_api.Service.Auth.Blocked.deny_blocked_account
    udesa_x_users_api.Service.Auth.Blocked.deny_expired_temporary_password
    udesa_x_users_api.Cache.RateLimiter.reset udesa_x_users_api.Service.Auth.Login.issue_session
    udesa_x_users_api.Security.issue_access_token
    udesa_x_users_api.Service.Auth.Login.issue_refresh_token
    udesa_x_users_api.Security.generate_refresh_token udesa_x_users_api.Store.RefreshTokens.add
login_sound_example = login_sound settings (65 ∷ []) (5 ∷ []) (with_user ana) session refl

try_all-locks_example :
    login settings (97 ∷ []) (5 ∷ []) (
      at_time 1500000000 (
        try_all settings
          (97 ∷ [])
          ((1000000000, 1 ∷ [])
            ∷ (1100000000, 2 ∷ [])
            ∷ (1200000000, 3 ∷ [])
            ∷ (1300000000, 4 ∷ [])
            ∷ (1400000000, [])
            ∷ [])
          (with_user ana)))
    ≡ (
      err (problem (too_many_attempts (app_login_policy settings))),
      at_time 1500000000 (
          try_all settings
            (97 ∷ [])
            ((1000000000, 1 ∷ [])
              ∷ (1100000000, 2 ∷ [])
              ∷ (1200000000, 3 ∷ [])
              ∷ (1300000000, 4 ∷ [])
              ∷ (1400000000, [])
              ∷ [])
            (with_user ana)),
    )
unfolding udesa_x_users_api.Security.verify_password udesa_x_users_api.Common.beq_text
    udesa_x_users_api.Text.normalise window_seconds app_login_policy
try_all-locks_example =
    try_all-locks settings (97 ∷ []) 1000000000 (1 ∷ [])
      ((1100000000, 2 ∷ []) ∷ (1200000000, 3 ∷ []) ∷ (1300000000, 4 ∷ []) ∷ (1400000000, []) ∷ [])
      (with_user ana) 1500000000 (5 ∷ []) refl refl
      ((omega arith, refl), ((omega arith, refl), ((omega arith, refl), ((omega arith, refl), tt))))
      refl (omega arith)
