-- ===== src/Service/Auth/Blocked.antt =====
-- The refusals that both logins, refreshing and every request share: `deny_blocked_account` and
-- `deny_expired_temporary_password` of auth.py.
use udesa_x_users_api.Common.{not, ◌&&◌, none, String, ◌==◌, if◌then◌else◌}
use udesa_x_users_api.Model.Account.{
  under_review, User, status_eq, is_deleted, can_log_in, temporary_password_expired,
}
use udesa_x_users_api.Model.Problem.{Problem, problem, says}
use udesa_x_users_api.Platform.{Platform}
use udesa_x_users_api.World.Exec.{Action, None, pure, raise, raise_if, utc_now, ◌>>=◌}

abbrev pub account_under_review : String → Problem
account_under_review title = record {
  http_status = 403;
  code = "account-under-review";
  title = title;
  detail =
      says
        "Tu cuenta está en revisión por denuncias de otros usuarios. Mientras dure la revisión no podés iniciar sesión";
  retry_after = none;
}

abbrev pub account_suspended : String → Problem
account_suspended title = record {
  http_status = 403;
  code = "account-suspended";
  title = title;
  detail = says "Cuenta suspendida";
  retry_after = none;
}

abbrev pub temporary_password_lapsed : String → Problem
temporary_password_lapsed title = record {
  http_status = 403;
  code = "temporary-password-expired";
  title = title;
  detail = says "La contraseña temporal venció. Pedile al superadministrador que genere una nueva";
  retry_after = none;
}

abbrev pub login_failed_title : String
login_failed_title = "No se pudo iniciar sesión"

abbrev pub refresh_failed_title : String
refresh_failed_title = "No se pudo renovar la sesión"

module _ ⦃p : Platform⦄ where
  unfoldable pub deny_blocked_account : User → String → Action None
  unfolding can_log_in
  deny_blocked_account user title =
      if can_log_in user
      then pure tt
      else if (user.status == under_review) && not (is_deleted user)
      then raise (problem (account_under_review title))
      else raise (problem (account_suspended title))

  unfoldable pub deny_expired_temporary_password : User → String → Action None
  unfolding temporary_password_expired
  deny_expired_temporary_password user title = do
    at ← utc_now
    raise_if (temporary_password_expired user at) (problem (temporary_password_lapsed title))
