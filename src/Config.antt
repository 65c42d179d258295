-- ===== src/Config.antt =====
-- src/users_api/config/settings.py: the settings that the business rules read.
use udesa_x_users_api.Common.{ℕ, [], Text, codes}

pub record Settings : Type 0 where
  pub internal_api_token : Text
  pub jwt_issuer : Text
  pub access_token_minutes : ℕ
  pub refresh_token_days : ℕ
  pub login_max_attempts : ℕ
  pub login_lockout_minutes : ℕ
  pub admin_login_max_attempts : ℕ
  pub admin_login_lockout_minutes : ℕ
  pub change_password_max_attempts : ℕ
  pub change_password_lockout_minutes : ℕ
  pub administrator_email_domain : Text
  pub email_verification_hours : ℕ
  pub password_reset_minutes : ℕ
  pub password_reset_max_requests : ℕ
  pub password_reset_window_minutes : ℕ
  pub public_base_url : Text

-- What a deployment gets that sets the token of the internal routes only.
abbrev pub default_settings : Text → Settings
default_settings internal_api_token = record {
  internal_api_token = internal_api_token;
  jwt_issuer = codes "users-api";
  access_token_minutes = 15;
  refresh_token_days = 7;
  login_max_attempts = 5;
  login_lockout_minutes = 15;
  admin_login_max_attempts = 3;
  admin_login_lockout_minutes = 30;
  change_password_max_attempts = 3;
  change_password_lockout_minutes = 15;
  administrator_email_domain = [];
  email_verification_hours = 24;
  password_reset_minutes = 10;
  password_reset_max_requests = 3;
  password_reset_window_minutes = 60;
  public_base_url = codes "http://localhost:8000";
}
