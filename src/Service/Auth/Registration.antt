-- ===== src/Service/Auth/Registration.antt =====
-- `register`, `issue_verification_token`, `verify_email` and `resend_verification` of auth.py.
pub mod Accounts
pub mod Verification
pub mod FirstLogin
use udesa_x_users_api.Common.{
  ℕ, ◌+◌, ◌*◌, true, false, not, ◌||◌, Option, none, some, ◌++◌, Text, codes, is_some,
  if◌then◌else◌,
}
use udesa_x_users_api.Text.{normalise}
use udesa_x_users_api.Config.{Settings}
use udesa_x_users_api.Model.Account.{Role, active, everyone, every, User, Draft, can_log_in}
use udesa_x_users_api.Model.Token.{EmailVerificationToken, link_is_usable}
use udesa_x_users_api.Model.Event.{user_registered, email_verification_requested}
use udesa_x_users_api.Model.Problem.{Problem, problem, says}
use udesa_x_users_api.Platform.{Platform, second}
use udesa_x_users_api.World.Exec.{
  Action, None, pure, raise, raise_if, attribute_of, utc_now, ◌>>=◌, ◌>>◌,
}
use udesa_x_users_api.Store.Users
use udesa_x_users_api.Store.VerificationTokens
use udesa_x_users_api.Store.Records.{build_event, add_event}
use udesa_x_users_api.Security.{hash_password, hash_token, generate_emailed_token}

abbrev pub account_already_exists : Problem
account_already_exists = record {
  http_status = 409;
  code = "account-already-exists";
  title = "No se pudo crear la cuenta";
  detail = says "El email o el nombre de usuario ya están en uso";
  retry_after = none;
}

abbrev pub verification_token_invalid : Problem
verification_token_invalid = record {
  http_status = 400;
  code = "verification-token-invalid";
  title = "No se pudo validar la cuenta";
  detail = says "El link de validación es inválido o expiró. Pedí uno nuevo desde el login";
  retry_after = none;
}

-- The account that `register` builds; every other field has its default.
abbrev pub new_account : Text → Text → Text → ℕ → Draft
new_account email handle password_hash now id created_at = record {
  id = id;
  email = email;
  handle = handle;
  password_hash = password_hash;
  role = Role.user;
  must_change_password = false;
  temporary_password_expires_at = none;
  is_email_verified = false;
  status = active;
  status_reason = none;
  status_changed_at = none;
  deleted_at = none;
  terms_accepted = true;
  terms_accepted_at = some now;
  created_at = created_at;
  display_name = none;
  bio = none;
  profile_visibility = everyone;
  feed_language = every;
}

abbrev pub verified : User → User
verified u = record u { is_email_verified = true }

module _ ⦃p : Platform⦄ (settings : Settings) where
  unfoldable pub issue_verification_token : User → ℕ → Action Text
  unfolding generate_emailed_token hash_token
  issue_verification_token user now = do
    raw_token ← generate_emailed_token
    VerificationTokens.add user.id (hash_token raw_token)
        (now + settings.email_verification_hours * 3600 * second)
    pure (settings.public_base_url ++ codes "/api/auth/verify?token=" ++ raw_token)

  unfoldable pub register : Text → Text → Text → Action User
  register email handle password = do
    let normalised_email = normalise email
    let normalised_handle = normalise handle
    taken ← Users.exists_with_email_or_handle normalised_email normalised_handle
    raise_if taken (problem account_already_exists)
    at ← utc_now
    password_hash ← hash_password password
    user ← Users.add (new_account normalised_email normalised_handle password_hash at)
    verification_url ← issue_verification_token user at
    event ← build_event (user_registered user verification_url) at
    add_event event
    pure user

  unfoldable pub resend_to : Option User → Action None
  resend_to none = pure tt
  resend_to (some user) = if user.is_email_verified || not (can_log_in user) then pure tt else do
    at ← utc_now
    verification_url ← issue_verification_token user at
    event ← build_event (email_verification_requested user verification_url) at
    add_event event

  unfoldable pub resend_verification : Text → Action None
  unfolding resend_to
  resend_verification email = do user ← Users.find_by_email (normalise email); resend_to user

module _ ⦃p : Platform⦄ where
  -- From the second `if` of `verify_email` on, for a token that was found.
  unfoldable pub use_link : EmailVerificationToken → ℕ → Action User
  use_link token now = do
    raise_if (not (link_is_usable token now)) (problem verification_token_invalid)
    VerificationTokens.mark_used token.id now
    found ← Users.get token.user_id
    user ← attribute_of found
    Users.update (verified user)
    pure (verified user)

  unfoldable pub verify_found : Option EmailVerificationToken → ℕ → Action User
  unfolding use_link
  verify_found none now = raise (problem verification_token_invalid)
  verify_found (some token) now =
      if is_some token.used_at
      then (do
        found ← Users.get token.user_id
        user ← attribute_of found
        if user.is_email_verified then pure user else use_link token now)
      else use_link token now

  unfoldable pub verify_email : Text → Action User
  unfolding verify_found hash_token
  verify_email raw_token = do
    at ← utc_now
    token ← VerificationTokens.find_by_hash (hash_token raw_token)
    verify_found token at
