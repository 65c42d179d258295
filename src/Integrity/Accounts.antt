-- ===== src/Integrity/Accounts.antt =====
-- What an owner does to an account keeps the accounts and the tokens consistent.
use udesa_x_users_api.Common.{
  ℕ, ◌*◌, ◌+◌, ◌++◌, refl, not, ◌||◌, Option, none, some, Text, codes, is_some, ltb,
}
use udesa_x_users_api.Text.{normalise}
use udesa_x_users_api.Config.{Settings}
use udesa_x_users_api.Model.Account.{User, can_log_in, language_eq}
use udesa_x_users_api.Model.Token.{
  EmailVerificationToken, PasswordResetToken, link_is_usable, reset_is_usable,
}
use udesa_x_users_api.Model.Event.{
  user_registered, email_verification_requested, password_reset_requested, Payload,
}
use udesa_x_users_api.Model.Problem.{problem}
use udesa_x_users_api.Platform.{Platform, second}
use udesa_x_users_api.World.Exec.{◌>>=◌}
use udesa_x_users_api.World.Ensures.{
  Keeps, ◌▹◌, raise-Ensures, raise_if-Keeps, if-Ensures, pure-Keeps, utc_now-Keeps,
  attribute_of-Ensures,
}
use udesa_x_users_api.Store.Users
use udesa_x_users_api.Store.Records.{build_event, add_event}
use udesa_x_users_api.Security.{hash_token, verify_password}
use udesa_x_users_api.Service.Auth.Login.{session_seconds}
use udesa_x_users_api.Service.Auth.Registration.{
  account_already_exists, verification_token_invalid, new_account, verified,
  issue_verification_token, register, resend_to, resend_verification, use_link, verify_found,
  verify_email,
}
use udesa_x_users_api.Service.PasswordReset.{
  reset_token_invalid, password_unchanged, too_many_reset_requests, reset_request_key,
  with_password, guard_reset_limit, send_reset_to, forgot_password, replace_password, reset_found,
  reset_password,
}
use udesa_x_users_api.Integrity.{IsSound, IsConsistent}
use udesa_x_users_api.Integrity.Statements.{
  get-Ensures, find_by_identifier-Ensures, find_by_email-Ensures, update-Keeps, add-Ensures,
}
use udesa_x_users_api.Integrity.Tables.{
  build_event-Keeps, add_event-Keeps, VerificationTokens_add-Keeps,
  VerificationTokens_mark_used-Keeps, VerificationTokens_find-Keeps, ResetTokens_add-Keeps,
  ResetTokens_find-Keeps, mark_all_used-Keeps, revoke_all-Keeps,
}
use udesa_x_users_api.Integrity.Redis.{quiet-Keeps, hit-Keeps, revoke_sessions-Keeps}
use udesa_x_users_api.Integrity.Guards.{hash_password-Keeps, emailed_token-Keeps}
use udesa_x_users_api.Integrity.Changes.{
  new_account-IsSound, verified-IsSound, with_password-IsSound,
}

module _ ⦃p : Platform⦄ where
  -- An event is built and left in the outbox.
  pub announce-Keeps :
      (payload : Payload) (at : ℕ)
      → Keeps IsConsistent (build_event payload at >>= λ event. add_event event)
  announce-Keeps payload at = build_event-Keeps payload at ▹ λ event _. add_event-Keeps event

  pub exists-Keeps :
      (email handle : Text) → Keeps IsConsistent (Users.exists_with_email_or_handle email handle)
  unfolding Users.exists_with_email_or_handle
  exists-Keeps email handle = quiet-Keeps _ (λ w. refl)

module _ ⦃p : Platform⦄ (settings : Settings) where
  issue_verification_token-Keeps :
      (user : User) (now : ℕ) → Keeps IsConsistent (issue_verification_token settings user now)
  unfolding issue_verification_token
  issue_verification_token-Keeps user now = emailed_token-Keeps ▹ λ raw_token _.
      VerificationTokens_add-Keeps user.id (hash_token raw_token)
        (now + settings.email_verification_hours * 3600 * second)
      ▹ λ _ _. pure-Keeps (settings.public_base_url ++ codes "/api/auth/verify?token=" ++ raw_token)

  pub register-Keeps :
      (email handle password : Text) → Keeps IsConsistent (register settings email handle password)
  unfolding register
  register-Keeps email handle password =
      exists-Keeps (normalise email) (normalise handle) ▹ λ taken _.
      raise_if-Keeps taken (problem account_already_exists) ▹ λ _ _. utc_now-Keeps ▹ λ at _.
      hash_password-Keeps password ▹ λ password_hash _.
      add-Ensures (new_account (normalise email) (normalise handle) password_hash at)
        (new_account-IsSound email handle password_hash at)
      ▹ λ user _. issue_verification_token-Keeps user at ▹ λ url _.
          build_event-Keeps (user_registered user url) at ▹ λ event _.
          add_event-Keeps event ▹ λ _ _. pure-Keeps user

  resend_to-Keeps : (user : Option User) → Keeps IsConsistent (resend_to settings user)
  unfolding resend_to
  resend_to-Keeps none = pure-Keeps tt
  resend_to-Keeps (some user) =
      if-Ensures (user.is_email_verified || not (can_log_in user)) (λ _. pure-Keeps tt)
        (λ _. utc_now-Keeps ▹ λ at _. issue_verification_token-Keeps user at ▹ λ url _.
          announce-Keeps (email_verification_requested user url) at)

  pub resend_verification-Keeps :
      (email : Text) → Keeps IsConsistent (resend_verification settings email)
  unfolding resend_verification
  resend_verification-Keeps email =
      find_by_email-Ensures (normalise email) ▹ λ found _. resend_to-Keeps found

  guard_reset_limit-Keeps :
      (identifier : Text) → Keeps IsConsistent (guard_reset_limit settings identifier)
  unfolding guard_reset_limit
  guard_reset_limit-Keeps identifier =
      hit-Keeps (reset_request_key identifier) (settings.password_reset_window_minutes * 60)
      ▹ λ requests _.
          raise_if-Keeps (ltb settings.password_reset_max_requests requests)
            (problem (too_many_reset_requests settings))

  send_reset_to-Keeps : (user : Option User) → Keeps IsConsistent (send_reset_to settings user)
  unfolding send_reset_to
  send_reset_to-Keeps none = pure-Keeps tt
  send_reset_to-Keeps (some user) =
      if-Ensures (not (can_log_in user)) (λ _. pure-Keeps tt)
        λ _. utc_now-Keeps ▹ λ at _. emailed_token-Keeps ▹ λ raw_token _.
          ResetTokens_add-Keeps user.id (hash_token raw_token)
            (at + settings.password_reset_minutes * 60 * second)
          ▹ λ _ _. announce-Keeps (password_reset_requested user raw_token) at

  pub forgot_password-Keeps :
      (identifier : Text) → Keeps IsConsistent (forgot_password settings identifier)
  unfolding forgot_password
  forgot_password-Keeps identifier = guard_reset_limit-Keeps identifier ▹ λ _ _.
      find_by_identifier-Ensures (normalise identifier) ▹ λ found _. send_reset_to-Keeps found

  replace_password-Keeps :
      (user : User) (new_password : Text) (now : ℕ)
      → IsSound user
      → Keeps IsConsistent (replace_password settings user new_password now)
  unfolding replace_password
  replace_password-Keeps user new_password now sound =
      raise_if-Keeps (verify_password new_password (some user.password_hash))
        (problem password_unchanged)
      ▹ λ _ _. hash_password-Keeps new_password ▹ λ password_hash _.
          update-Keeps (with_password user password_hash)
            (with_password-IsSound user sound password_hash)
          ▹ λ _ _. mark_all_used-Keeps user.id now ▹ λ _ _.
              revoke_sessions-Keeps user.id now (session_seconds settings) ▹ λ _ _.
              revoke_all-Keeps user.id now ▹ λ _ _. pure-Keeps (with_password user password_hash)

  reset_found-Keeps :
      (found : Option PasswordResetToken) (new_password : Text) (now : ℕ)
      → Keeps IsConsistent (reset_found settings found new_password now)
  unfolding reset_found
  reset_found-Keeps none new_password now = raise-Ensures (problem reset_token_invalid)
  reset_found-Keeps (some token) new_password now =
      raise_if-Keeps (not (reset_is_usable token now)) (problem reset_token_invalid) ▹ λ _ _.
      get-Ensures token.user_id ▹ λ found sound. attribute_of-Ensures found sound ▹ λ user known.
      replace_password-Keeps user new_password now known

  pub reset_password-Keeps :
      (raw_token new_password : Text)
      → Keeps IsConsistent (reset_password settings raw_token new_password)
  unfolding reset_password
  reset_password-Keeps raw_token new_password = utc_now-Keeps ▹ λ at _.
      ResetTokens_find-Keeps (hash_token raw_token) ▹ λ token _.
      reset_found-Keeps token new_password at

module _ ⦃p : Platform⦄ where
  use_link-Keeps :
      (token : EmailVerificationToken) (now : ℕ) → Keeps IsConsistent (use_link token now)
  unfolding use_link
  use_link-Keeps token now =
      raise_if-Keeps (not (link_is_usable token now)) (problem verification_token_invalid) ▹ λ _ _.
      VerificationTokens_mark_used-Keeps token.id now ▹ λ _ _.
      get-Ensures token.user_id ▹ λ found sound. attribute_of-Ensures found sound ▹ λ user known.
      update-Keeps (verified user) (verified-IsSound user known) ▹ λ _ _. pure-Keeps (verified user)

  verify_found-Keeps :
      (found : Option EmailVerificationToken) (now : ℕ)
      → Keeps IsConsistent (verify_found found now)
  unfolding verify_found
  verify_found-Keeps none now = raise-Ensures (problem verification_token_invalid)
  verify_found-Keeps (some token) now =
      if-Ensures (is_some token.used_at)
        (λ _. get-Ensures token.user_id ▹ λ found sound.
          attribute_of-Ensures found sound ▹ λ user _.
          if-Ensures user.is_email_verified (λ _. pure-Keeps user) (λ _. use_link-Keeps token now))
        (λ _. use_link-Keeps token now)

  pub verify_email-Keeps : (raw_token : Text) → Keeps IsConsistent (verify_email raw_token)
  unfolding verify_email
  verify_email-Keeps raw_token = utc_now-Keeps ▹ λ at _.
      VerificationTokens_find-Keeps (hash_token raw_token) ▹ λ token _. verify_found-Keeps token at
