-- ===== src/Api/Seed.antt =====
-- `validate` and `run` of src/users_api/seed_superadmin.py.
use udesa_x_users_api.Common.{
  ◌||◌, Bool, Text, String, ◌==◌, nat_eq, ltb, length, is_some, if◌then◌else◌,
}
use udesa_x_users_api.Platform.{Platform}
use udesa_x_users_api.World.State.{World}
use udesa_x_users_api.World.Exec.{Result, pure, ◌>>=◌}
use udesa_x_users_api.Service.Admins.{ensure_superadmin}
use udesa_x_users_api.Api.Request.{session_scope}
use udesa_x_users_api.Api.Schemas.{Checked, valid, invalid, enforce_password_policy}

-- `SeedConfigurationError`, without the name of the variable that begins its message, or the password to
-- use.
pub data Validated : Type 0 where
  configured : Text → Validated
  misconfigured : String → Validated

abbrev pub from_policy : Checked → Text → Validated
from_policy (valid _) password = configured password
from_policy (invalid message) password = misconfigured message

-- An unset variable is an empty text.
unfoldable pub validate : Text → Text → Validated
validate email password =
    if (length email == 0) || (length password == 0)
    then misconfigured
        "SUPERADMIN_EMAIL and SUPERADMIN_PASSWORD must both be set to seed the superadmin"
    else if ltb (length password) 8
    then misconfigured "SUPERADMIN_PASSWORD must have at least 8 characters"
    else from_policy (enforce_password_policy password) password

module _ ⦃p : Platform⦄ where
  -- Whether the superadmin was created, in one transaction.
  unfoldable pub run : Text → Text → Text → World → Result Bool × World
  unfolding session_scope
  run email handle password w =
      session_scope (do user ← ensure_superadmin email handle password; pure (is_some user)) w
