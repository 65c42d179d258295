-- ===== src/Service/Admins.antt =====
-- src/users_api/app/services/admins.py, and `temporary_password_status` of
-- src/users_api/api/admin_users.py.
pub mod Accounts
use udesa_x_users_api.Common.{
  ℕ, ◌+◌, ◌*◌, Bool, true, false, not, ◌&&◌, Option, none, some, [], ◌∷◌, ◌++◌, String, Text, codes,
  ◌==◌, nat_eq, is_some, if◌then◌else◌, text_eq,
}
use udesa_x_users_api.Text.{normalise, lstrip_where, ends_with}
use udesa_x_users_api.Config.{Settings}
use udesa_x_users_api.Model.Account.{
  Role, active, everyone, every, User, Draft, temporary_password_expired,
}
use udesa_x_users_api.Model.Event.{
  admin_created, temporary_password_reset, no_details, details_email,
}
use udesa_x_users_api.Model.Problem.{Problem, problem, says, says_text}
use udesa_x_users_api.Platform.{Platform, second}
use udesa_x_users_api.World.Exec.{
  Action, None, pure, raise, raise_if, or_raise, utc_now, ◌>>=◌, ◌>>◌,
}
use udesa_x_users_api.Store.Users
use udesa_x_users_api.Security.{hash_password, generate_temporary_password}
use udesa_x_users_api.Service.Auth.Registration.{new_account, account_already_exists}
use udesa_x_users_api.Service.AccountBlock.{account_not_found}
use udesa_x_users_api.Service.Audit.{record_action}

abbrev pub temporary_password_hours : ℕ
temporary_password_hours = 24

abbrev pub regeneration_failed_title : String
regeneration_failed_title = "No se pudo regenerar la contraseña"

abbrev pub email_domain_not_allowed : Text → Problem
email_domain_not_allowed domain = record {
  http_status = 400;
  code = "email-domain-not-allowed";
  title = "No se pudo crear la cuenta";
  detail = says_text "El correo de un administrador tiene que ser del dominio @" domain;
  retry_after = none;
}

abbrev pub password_already_chosen : Problem
password_already_chosen = record {
  http_status = 409;
  code = "password-already-chosen";
  title = regeneration_failed_title;
  detail = says "La cuenta ya eligió su propia contraseña";
  retry_after = none;
}

-- The accounts that the two operations build: the defaults of `User` with what each sets.
abbrev pub seeded_superadmin : Text → Text → Text → ℕ → Draft
seeded_superadmin email handle password_hash now id created_at =
    record (new_account email handle password_hash now id created_at) {
      role = Role.superadmin;
      is_email_verified = true;
    }

abbrev pub new_administrator : Text → Text → Text → Role → ℕ → Draft
new_administrator email handle password_hash role now id created_at =
    record (new_account email handle password_hash now id created_at) {
      role = role;
      must_change_password = true;
      temporary_password_expires_at = some (now + temporary_password_hours * 3600 * second);
      is_email_verified = true;
    }

-- `settings.administrator_email_domain.strip().lower().lstrip("@")`
unfoldable pub authorized_domain : Settings → Text
authorized_domain settings =
    lstrip_where (λ c. c == 64) (normalise settings.administrator_email_domain)

unfoldable pub is_outside : Text → Text → Bool
is_outside [] email = false
is_outside (c ∷ domain) email = not (ends_with email (codes "@" ++ c ∷ domain))

module _ ⦃p : Platform⦄ where
  unfoldable pub ensure_superadmin : Text → Text → Text → Action (Option User)
  ensure_superadmin email handle password = do
    found ← Users.find_by_email (normalise email)
    if is_some found then pure none else do
      at ← utc_now
      password_hash ← hash_password password
      user ← Users.add (seeded_superadmin (normalise email) (normalise handle) password_hash at)
      pure (some user)

  unfoldable pub deny_email_outside_the_authorized_domain : Settings → Text → Action None
  unfolding authorized_domain is_outside
  deny_email_outside_the_authorized_domain settings email =
      raise_if (is_outside (authorized_domain settings) email)
        (problem (email_domain_not_allowed (authorized_domain settings)))

  -- The account with its temporary password in clear.
  unfoldable pub create_administrator : Settings → ℕ → Text → Text → Role → Action (User × Text)
  unfolding deny_email_outside_the_authorized_domain
  create_administrator settings actor_id email handle role = do
    deny_email_outside_the_authorized_domain settings (normalise email)
    taken ← Users.exists_with_email_or_handle (normalise email) (normalise handle)
    raise_if taken (problem account_already_exists)
    temporary_password ← generate_temporary_password
    at ← utc_now
    password_hash ← hash_password temporary_password
    user ← Users.add (new_administrator (normalise email) (normalise handle) password_hash role at)
    record_action actor_id admin_created user.id (details_email user.email)
    pure (user, temporary_password)

  abbrev pub with_temporary_password : User → Text → ℕ → User
  with_temporary_password u password_hash now = record u {
    password_hash = password_hash;
    temporary_password_expires_at = some (now + temporary_password_hours * 3600 * second);
  }

  unfoldable pub reset_temporary_password : ℕ → ℕ → Action (User × Text)
  reset_temporary_password user_id actor_id = do
    found ← Users.get user_id
    user ← or_raise found (problem (account_not_found regeneration_failed_title))
    raise_if (not user.must_change_password) (problem password_already_chosen)
    temporary_password ← generate_temporary_password
    password_hash ← hash_password temporary_password
    at ← utc_now
    Users.update (with_temporary_password user password_hash at)
    record_action actor_id temporary_password_reset user.id no_details
    pure (with_temporary_password user password_hash at, temporary_password)

-- `temporary_password_status`
pub data CredentialStatus : Type 0 where
  pending expired : CredentialStatus

unfoldable pub temporary_password_status : User → ℕ → Option CredentialStatus
unfolding temporary_password_expired
temporary_password_status user now =
    if not user.must_change_password
    then none
    else if temporary_password_expired user now
    then some expired
    else some pending
