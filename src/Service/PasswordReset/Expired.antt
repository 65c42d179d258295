-- ===== src/Service/PasswordReset/Expired.antt =====
-- The temporary password of an administrator who recovers the account by email.
use udesa_x_users_api.Common.{
  ℕ, ◌<◌, ◌≡◌, refl, ap, ◌∙◌, true, false, some, find?, find?-map_where, Text, ==_refl, nat_eq,
  arith,
}
use udesa_x_users_api.Text.{normalise}
use udesa_x_users_api.Config.{Settings}
use udesa_x_users_api.Model.Account.{
  User, temporary_password_expired, is_administrator, can_log_in, is_deleted,
}
use udesa_x_users_api.Model.Token.{PasswordResetToken, reset_is_usable}
use udesa_x_users_api.Model.Problem.{problem}
use udesa_x_users_api.Platform.{Platform}
use udesa_x_users_api.World.State.{World}
use udesa_x_users_api.World.Exec.{ok, err}
use udesa_x_users_api.Store.Users
use udesa_x_users_api.Store.Users.{has_id, has_email, overwrite}
use udesa_x_users_api.Cache.RateLimiter.{stored, marks_of, count}
use udesa_x_users_api.Cache.RateLimiter.Window.{at_time}
use udesa_x_users_api.Security.{verify_password}
use udesa_x_users_api.Service.Lockout.{policy_key, admin_login_policy, guard_lockout}
use udesa_x_users_api.Service.Auth.Blocked.{
  login_failed_title, temporary_password_lapsed, deny_blocked_account,
  deny_expired_temporary_password,
}
use udesa_x_users_api.Service.Auth.Login.{session_seconds, prove_password, admin_admit, admin_login}
use udesa_x_users_api.Service.PasswordReset.{reset_password}
use udesa_x_users_api.Service.PasswordReset.Consequences.{link, replaced, reset_password-replaces}

module _ ⦃p : Platform⦄ (settings : Settings) (email password : Text) (w : World) where
  -- The right password at the backoffice of an administrator whose temporary password has expired.
  admin_login-lapsed :
      (user : User)
      → marks_of (stored (policy_key (admin_login_policy settings) email) w)
        < (admin_login_policy settings).max_attempts
      → find? (has_email (normalise email)) w.db.users ≡ some user
      → verify_password password (some user.password_hash) ≡ true
      → is_administrator user ≡ true
      → can_log_in user ≡ true
      → temporary_password_expired user w.clock ≡ true
      → admin_login settings email password w
        ≡ (err (problem (temporary_password_lapsed login_failed_title)), w)
  unfolding admin_login guard_lockout count prove_password Users.find_by_email admin_admit
      deny_blocked_account deny_expired_temporary_password is_administrator can_log_in is_deleted
      temporary_password_expired
  admin_login-lapsed user few found proven admin allowed late =
      ground (arith, few, found, proven, admin, allowed, late)

module _ ⦃p : Platform⦄ (settings : Settings) (raw_token new_password : Text) (w : World) where
  -- Some time after the recovery.
  abbrev pub recovered : ℕ → World
  recovered late = at_time late (reset_password settings raw_token new_password w).1

  -- An administrator whose temporary password has expired can recover the account with an emailed link,
  -- and is still refused at the backoffice with the address of the account and the new password, which
  -- is the right one: the reset neither lowers `must_change_password` nor clears the deadline of the
  -- temporary password. The account must be allowed to log in, and the attempts at the backoffice be
  -- below their limit.
  pub reset_password-still_expired :
      (t : PasswordResetToken) (user : User) (email : Text) (late : ℕ)
      → 0 < session_seconds settings
      → link settings raw_token new_password w ≡ some t
      → reset_is_usable t w.clock ≡ true
      → find? (has_id t.user_id) w.db.users ≡ some user
      → verify_password new_password (some user.password_hash) ≡ false
      → find? (has_email (normalise email)) w.db.users ≡ some user
      → is_administrator user ≡ true
      → can_log_in user ≡ true
      → temporary_password_expired user late ≡ true
      → marks_of (stored (policy_key (admin_login_policy settings) email) (recovered late))
        < (admin_login_policy settings).max_attempts
      → ((reset_password settings raw_token new_password w).0
          ≡ ok (replaced settings raw_token new_password w user))
        × (admin_login settings email new_password (recovered late)
            ≡ (err (problem (temporary_password_lapsed login_failed_title)), recovered late))
  unfolding overwrite is_administrator can_log_in is_deleted temporary_password_expired
  reset_password-still_expired t user email late lasting found usable owner changed named admin
        allowed lapsed few =
      let (done, users, proven, _, _, _) =
        reset_password-replaces settings raw_token new_password w t user lasting found usable owner
          changed in
      let row = overwrite (replaced settings raw_token new_password w user) user in
      let stored_row : find? (has_email (normalise email)) (recovered late).db.users ≡ some row =
        ap (find? (has_email (normalise email))) users
        ∙ find?-map_where (has_email (normalise email)) (has_id user.id)
            (overwrite (replaced settings raw_token new_password w user)) w.db.users (λ r. refl)
        ∙ ground (arith, named, ==_refl user.id) in
      (
        done,
        admin_login-lapsed settings email new_password (recovered late) row few stored_row proven
            admin allowed lapsed,
      )
