-- ===== src/Api/Server/Callers.antt =====
-- Who is calling: the guards write no table, and the account that they give is a sound one.
use udesa_x_users_api.Common.{◌*◌, not, ◌&&◌, ◌||◌, Option, none, some, Text, ◌==◌, text_eq}
use udesa_x_users_api.Config.{Settings}
use udesa_x_users_api.Model.Account.{Role, role_eq, is_administrator}
use udesa_x_users_api.Model.Problem.{problem}
use udesa_x_users_api.Platform.{
  Platform, Claims, Decoded, valid, expired_signature, invalid_token, second,
}
use udesa_x_users_api.World.Ensures.{
  Ensures, Keeps, ◌▹◌, raise-Ensures, raise_if-Keeps, pure-Keeps, pure-Ensures, or_raise-Ensures,
}
use udesa_x_users_api.Service.Auth.Blocked.{account_suspended}
use udesa_x_users_api.Api.CurrentUser.{
  unauthenticated_title, invalid_access_token, session_revoked, password_change_required,
  superadmin_required, administrator_required, invalid_internal_token, allowed_while_due,
  issued_before, claims_of, deny_revoked, account_of, get_current_user, require_superadmin,
  require_administrator, require_internal_token,
}
use udesa_x_users_api.Api.Bodies.{Headers, Authorization, bearer_token, rejected}
use udesa_x_users_api.Api.Routes.Auth.{bearer}
use udesa_x_users_api.Api.Routes.Me.{current_user}
use udesa_x_users_api.Api.Routes.Backoffice.{superadmin, administrator}
use udesa_x_users_api.Integrity.{IsSound, IsConsistent}
use udesa_x_users_api.Integrity.Statements.{get-Ensures}
use udesa_x_users_api.Integrity.Redis.{is_token_revoked-Keeps, revoked_before-Keeps}
use udesa_x_users_api.Integrity.Guards.{decode-Keeps, deny_blocked-Keeps}

module _ ⦃p : Platform⦄ where
  claims_of-Keeps : (decoded : Decoded) → Keeps IsConsistent (claims_of decoded)
  claims_of-Keeps (valid claims) = pure-Keeps claims
  claims_of-Keeps expired_signature = raise-Ensures (problem invalid_access_token)
  claims_of-Keeps invalid_token = raise-Ensures (problem invalid_access_token)

  deny_revoked-Keeps : (claims : Claims) → Keeps IsConsistent (deny_revoked claims)
  unfolding deny_revoked
  deny_revoked-Keeps claims = revoked_before-Keeps claims.sub ▹ λ cutoff _.
      is_token_revoked-Keeps claims.jti ▹ λ revoked _.
      raise_if-Keeps (revoked || issued_before cutoff (claims.iat * second))
        (problem session_revoked)

  account_of-Ensures :
      (claims : Claims) (path : Text) → Ensures IsConsistent IsSound (account_of claims path)
  unfolding account_of
  account_of-Ensures claims path = get-Ensures claims.sub ▹ λ found sound.
      or_raise-Ensures found (problem (account_suspended unauthenticated_title)) sound
      ▹ λ user known. deny_blocked-Keeps user unauthenticated_title ▹ λ _ _.
          raise_if-Keeps (user.must_change_password && not (allowed_while_due path))
            (problem password_change_required)
          ▹ λ _ _. pure-Ensures user known

  pub internal-Keeps :
      (settings : Settings) (token : Option Text)
      → Keeps IsConsistent (require_internal_token settings token)
  unfolding require_internal_token
  internal-Keeps settings none = raise-Ensures (problem invalid_internal_token)
  internal-Keeps settings (some token) =
      raise_if-Keeps (not (token == settings.internal_api_token)) (problem invalid_internal_token)

  pub bearer-Keeps : (sent : Authorization) → Keeps IsConsistent (bearer sent)
  bearer-Keeps (bearer_token token) = pure-Keeps token
  bearer-Keeps (rejected x) = raise-Ensures (problem x)

module _ ⦃p : Platform⦄ (settings : Settings) (headers : Headers) (path : Text) where
  pub current_user-Ensures : Ensures IsConsistent IsSound (current_user settings headers path)
  unfolding current_user get_current_user
  current_user-Ensures = bearer-Keeps headers.authorization ▹ λ token _.
      decode-Keeps token settings.jwt_issuer ▹ λ decoded _. claims_of-Keeps decoded ▹ λ claims _.
      deny_revoked-Keeps claims ▹ λ _ _. account_of-Ensures claims path

  pub superadmin-Ensures : Ensures IsConsistent IsSound (superadmin settings headers path)
  unfolding superadmin require_superadmin
  superadmin-Ensures = current_user-Ensures ▹ λ user known.
      raise_if-Keeps (not (user.role == Role.superadmin)) (problem superadmin_required) ▹ λ _ _.
      pure-Ensures user known

  pub administrator-Ensures : Ensures IsConsistent IsSound (administrator settings headers path)
  unfolding administrator require_administrator
  administrator-Ensures = current_user-Ensures ▹ λ user known.
      raise_if-Keeps (not (is_administrator user)) (problem administrator_required) ▹ λ _ _.
      pure-Ensures user known
