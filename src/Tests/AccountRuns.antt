-- ===== src/Tests/AccountRuns.antt =====
-- Registration, passwords and the status of an account.
use udesa_x_users_api.Common.{
  ℕ, ◌<◌, ◌≡◌, refl, inl, inr, [], ◌∷◌, none, some, true, false, arith, find?, any, ap, List, codes,
}
use udesa_x_users_api.Model.Problem.{problem, data_error}
use udesa_x_users_api.World.Exec.{ok, err}
use udesa_x_users_api.Service.Auth.Registration.FirstLogin.{register-login}
use udesa_x_users_api.Service.Auth.Login.{account_not_verified, login}
use udesa_x_users_api.Store.Users.{has_id}
use udesa_x_users_api.Store.RefreshTokens.{is_open_of}
use udesa_x_users_api.Service.Auth.Registration.{account_already_exists, register, verify_email}
use udesa_x_users_api.Service.Auth.Registration.Accounts.{registered}
use udesa_x_users_api.Service.Lockout.{policy_key, admin_login_policy, window_seconds}
use udesa_x_users_api.Service.CurrentPassword.{policy, too_many_password_attempts}
use udesa_x_users_api.Service.PasswordReset.{reset_password}
use udesa_x_users_api.Service.PasswordReset.Consequences.{replaced, reset_password-replaces}
use udesa_x_users_api.Service.PasswordReset.Expired.{recovered, reset_password-still_expired}
use udesa_x_users_api.Service.Auth.Blocked.{login_failed_title, temporary_password_lapsed}
use udesa_x_users_api.Service.Auth.Login.{admin_login}
use udesa_x_users_api.Cache.RateLimiter.{stored, marks_of}
use udesa_x_users_api.Cache.RateLimiter.Window.{at_time}
use udesa_x_users_api.Service.PasswordChange.{change_password}
use udesa_x_users_api.Service.PasswordChange.Consequences.{change_password-replaces}
use udesa_x_users_api.Service.AccountDeletion.{delete_account}
use udesa_x_users_api.Service.AccountDeletion.Consequences.{delete_account-closes}
use udesa_x_users_api.Service.AccountDeletion.Budget.{
  Attempt, changes, deletes, attempt_all, attempt_all-locks,
}
use udesa_x_users_api.Service.AccountReview.Statuses.{
  puts_under_review, lifts_review, blocks_account, run_all, run_all-suspended,
}
use udesa_x_users_api.Model.Account.{active, under_review}
use udesa_x_users_api.Service.AccountBlock.{block}
use udesa_x_users_api.Service.AccountBlock.Suspension.{block-suspends}
use udesa_x_users_api.Service.Auth.Registration.Verification.{verify_email-again}
use udesa_x_users_api.Service.Admins.Accounts.{ensure_superadmin-outcomes}
use udesa_x_users_api.Service.Admins.{ensure_superadmin}
use udesa_x_users_api.Tests.Demo.{demo, settings}
use udesa_x_users_api.Tests.Fixtures.{
  email_link, with_email_link, admin, with_users, reset_link, ana, root, blocked_ana, with_user,
  with_link, with_token, fresh_token,
}

reset_password-replaces_example :
    (reset_password settings (51 ∷ []) (6 ∷ []) (with_link ana)).0
    ≡ ok (replaced settings (51 ∷ []) (6 ∷ []) (with_link ana) ana)
unfolding udesa_x_users_api.Common.beq_text udesa_x_users_api.Security.hash_token
    udesa_x_users_api.Model.Token.reset_is_usable udesa_x_users_api.Security.verify_password
reset_password-replaces_example =
    (reset_password-replaces settings (51 ∷ []) (6 ∷ []) (with_link ana) (reset_link 7) ana
      (omega arith) refl refl refl refl).0

-- Nobody failed at the backoffice.
failures_test :
    marks_of (
      stored
        (policy_key (admin_login_policy settings) (114 ∷ []))
        (recovered settings (51 ∷ []) (6 ∷ []) (with_link root) 1000900000))
    ≡ 0
unfolding reset_password udesa_x_users_api.Store.ResetTokens.find_by_hash
    udesa_x_users_api.Common.beq_text udesa_x_users_api.Model.Token.reset_is_usable
    udesa_x_users_api.Store.Users.get udesa_x_users_api.Security.verify_password
    udesa_x_users_api.Security.hash_password udesa_x_users_api.Store.Users.update
    udesa_x_users_api.Store.ResetTokens.mark_all_used udesa_x_users_api.Cache.Sessions.revoke_all
    udesa_x_users_api.Store.RefreshTokens.revoke_all
    udesa_x_users_api.Cache.Sessions.revoked_sessions_key policy_key admin_login_policy
failures_test = refl

few_failures :
    marks_of (
      stored
        (policy_key (admin_login_policy settings) (114 ∷ []))
        (recovered settings (51 ∷ []) (6 ∷ []) (with_link root) 1000900000))
    < (admin_login_policy settings).max_attempts
unfolding admin_login_policy
few_failures = rw failures_test (omega arith)

reset_password-still_expired_example :
    (admin_login settings
      (114 ∷ [])
      (6 ∷ [])
      (recovered settings (51 ∷ []) (6 ∷ []) (with_link root) 1000900000)).0
    ≡ err (problem (temporary_password_lapsed login_failed_title))
unfolding udesa_x_users_api.Common.beq_text udesa_x_users_api.Security.hash_token
    udesa_x_users_api.Model.Token.reset_is_usable udesa_x_users_api.Security.verify_password
    udesa_x_users_api.Text.normalise udesa_x_users_api.Model.Account.is_administrator
    udesa_x_users_api.Model.Account.can_log_in
    udesa_x_users_api.Model.Account.temporary_password_expired
reset_password-still_expired_example =
    ap (λ ends. ends.0)
      (reset_password-still_expired settings (51 ∷ []) (6 ∷ []) (with_link root) (reset_link 8) root
        (114 ∷ []) 1000900000 (omega arith) refl refl refl refl refl refl refl refl few_failures).1

change_password-replaces_example :
    any
      (is_open_of 7)
      (change_password settings ana (5 ∷ []) (6 ∷ []) (with_token fresh_token)).1.db.refresh_tokens
    ≡ false
unfolding policy udesa_x_users_api.Security.verify_password udesa_x_users_api.Common.beq_text
change_password-replaces_example =
    (change_password-replaces settings ana (5 ∷ []) (6 ∷ []) (with_token fresh_token) (omega arith)
      (omega arith) refl refl refl).5

-- Three wrong passwords in a minute, the second of them to the deletion of the account.
abbrev wrong_attempts : List (ℕ × Attempt)
wrong_attempts =
    (1000000000, changes (4 ∷ []) (6 ∷ []))
    ∷ (1000000001, deletes (4 ∷ []))
    ∷ (1000000002, changes (3 ∷ []) (6 ∷ []))
    ∷ []

attempt_all-locks_example :
    (delete_account settings ana
      (5 ∷ [])
      (at_time 1000000003 (attempt_all settings ana wrong_attempts (with_user ana)))).0
    ≡ err (problem (too_many_password_attempts (policy settings)))
unfolding udesa_x_users_api.Model.Account.is_administrator
    udesa_x_users_api.Security.verify_password udesa_x_users_api.Common.beq_text window_seconds
    policy
attempt_all-locks_example =
    ap (λ ends. ends.0)
      (attempt_all-locks settings ana 1000000000 (changes (4 ∷ []) (6 ∷ []))
        ((1000000001, deletes (4 ∷ [])) ∷ (1000000002, changes (3 ∷ []) (6 ∷ [])) ∷ [])
        (with_user ana) 1000000003 (5 ∷ []) (6 ∷ []) refl refl refl
        ((omega arith, refl), ((omega arith, refl), tt)) refl (omega arith)).1

run_all-suspended_example :
    find?
      (has_id 7)
      (run_all settings
        ((1000000000, puts_under_review 7)
          ∷ (1100000000, lifts_review 7)
          ∷ (1200000000, blocks_account root 7 (120 ∷ []))
          ∷ [])
        (with_user blocked_ana)).db.users
    ≡ some blocked_ana
run_all-suspended_example =
    run_all-suspended settings
      ((1000000000, puts_under_review 7)
        ∷ (1100000000, lifts_review 7)
        ∷ (1200000000, blocks_account root 7 (120 ∷ []))
        ∷ [])
      (with_user blocked_ana) 7 blocked_ana refl refl

-- A handle of eighteen characters does not fit its column.
ensure_superadmin-outcomes_example :
    (ensure_superadmin (65 ∷ []) (codes "superadministrator") (5 ∷ []) (with_user admin)).0
    ≡ err data_error
unfolding udesa_x_users_api.Common.beq_text udesa_x_users_api.Text.normalise
ensure_superadmin-outcomes_example =
    (ensure_superadmin-outcomes (65 ∷ []) (codes "superadministrator") (5 ∷ []) (with_user admin)).0

verify_email-again_example : (verify_email (53 ∷ []) with_email_link).0 ≡ ok ana
unfolding udesa_x_users_api.Common.beq_text udesa_x_users_api.Security.hash_token
    udesa_x_users_api.Model.Token.link_is_usable
verify_email-again_example =
    (verify_email-again (53 ∷ []) with_email_link email_link
      (record ana { is_email_verified = false }) 1700000000 refl refl refl).0

block-suspends_example :
    (block settings admin 7 (115 ∷ []) (with_users (ana ∷ admin ∷ []))).0 ≡ ok tt
unfolding udesa_x_users_api.Model.Account.is_deleted
    udesa_x_users_api.Model.Account.is_administrator
block-suspends_example =
    (block-suspends settings admin (115 ∷ []) (with_users (ana ∷ admin ∷ [])) 7 admin ana
      (omega arith) refl refl refl refl refl refl refl).0

register-login_example :
    (login settings
      (98 ∷ [])
      (66 ∷ [])
      (register settings (98 ∷ []) (64 ∷ 98 ∷ []) (66 ∷ []) (with_user ana)).1).0
    ≡ err (problem account_not_verified)
unfolding register udesa_x_users_api.Store.Users.exists_with_email_or_handle
    udesa_x_users_api.Common.beq_text udesa_x_users_api.Text.normalise
    udesa_x_users_api.Security.hash_password udesa_x_users_api.Store.Users.add
    udesa_x_users_api.Service.Auth.Registration.issue_verification_token
    udesa_x_users_api.Store.VerificationTokens.add udesa_x_users_api.Store.Records.build_event
    udesa_x_users_api.Store.Records.add_event udesa_x_users_api.Service.Lockout.app_login_policy
register-login_example =
    ap (λ ends. ends.0)
      (register-login settings (98 ∷ []) (64 ∷ 98 ∷ []) (66 ∷ []) (with_user ana)
        (registered settings (98 ∷ []) (64 ∷ 98 ∷ []) (66 ∷ []) (with_user ana)) (98 ∷ []) refl refl
        refl (omega arith))

delete_account-closes_example :
    (delete_account settings ana (5 ∷ []) (with_token fresh_token)).0 ≡ ok tt
unfolding policy udesa_x_users_api.Security.verify_password udesa_x_users_api.Common.beq_text
    udesa_x_users_api.Model.Account.is_administrator
delete_account-closes_example =
    (delete_account-closes settings ana (5 ∷ []) (with_token fresh_token) ana (omega arith) refl
      (omega arith) refl refl refl).0
