-- ===== src/Api/Server/Needs.antt =====
-- What the service promises of its routes: who may make each call.
use udesa_x_users_api.Common.{
  ◌*◌, ◌++◌, ◌≡◌, Bool, true, false, not, ◌&&◌, some, [], Text, codes, text_eq, find?, is_some,
}
use udesa_x_users_api.Text.Uuid.{str_uuid}
use udesa_x_users_api.Config.{Settings}
use udesa_x_users_api.Model.Account.{User, Role, role_eq, is_administrator, can_log_in}
use udesa_x_users_api.Platform.{Platform, Claims, valid, second}
use udesa_x_users_api.World.State.{World}
use udesa_x_users_api.Store.Users.{has_id}
use udesa_x_users_api.Cache.RateLimiter.{stored}
use udesa_x_users_api.Cache.Sessions.{revoked_sessions_key, revoked_token_key, instant_of}
use udesa_x_users_api.Api.CurrentUser.{issued_before}
use udesa_x_users_api.Api.Bodies.{Headers, bearer_token}
use udesa_x_users_api.Api.Server.{Call}

-- What the service promises of each call: who may make it.
pub data Need : Type 0 where
  anyone an_owner an_administrator a_superadmin another_service : Need

abbrev pub needs : Call → Need
needs (Call.delete_account _) = an_owner
needs (Call.change_password _ _ _) = an_owner
needs Call.get_profile = an_owner
needs Call.get_preferences = an_owner
needs (Call.update_profile _ _) = an_owner
needs (Call.update_preferences _ _) = an_owner
needs (Call.submit_feedback _ _ _) = an_owner
needs (Call.search_users _ _) = an_owner
needs (Call.search_accounts _ _) = an_administrator
needs (Call.account_detail _) = an_administrator
needs Call.account_metrics = an_administrator
needs (Call.block_account _ _) = an_administrator
needs (Call.list_audit_entries _ _) = an_administrator
needs (Call.create_administrator _ _ _) = a_superadmin
needs (Call.reset_temporary_password _) = a_superadmin
needs Call.list_administrators = a_superadmin
needs (Call.put_under_review _) = another_service
needs (Call.lift_review _) = another_service
needs (Call.get_public_profile _) = another_service
needs (Call.administrator_identity _) = another_service
needs _ = anyone

-- The call that a session may make while its password is to be changed.
abbrev pub settles_change : Call → Bool
settles_change (Call.change_password _ _ _) = true
settles_change _ = false

-- The path on which the guards see each call.
abbrev pub path_of : Call → Text
path_of (Call.delete_account _) = codes "/api/me"
path_of (Call.change_password _ _ _) = codes "/api/me/change-password"
path_of Call.get_profile = codes "/api/me"
path_of Call.get_preferences = codes "/api/me/preferences"
path_of (Call.update_profile _ _) = codes "/api/me"
path_of (Call.update_preferences _ _) = codes "/api/me/preferences"
path_of (Call.submit_feedback _ _ _) = codes "/api/me/feedback"
path_of (Call.search_users _ _) = codes "/api/search/users"
path_of (Call.search_accounts _ _) = codes "/api/admin/users/search"
path_of (Call.account_detail id) = codes "/api/admin/users/" ++ str_uuid id
path_of Call.account_metrics = codes "/api/admin/metrics"
path_of (Call.block_account id _) = codes "/api/admin/users/" ++ str_uuid id ++ codes "/block"
path_of (Call.list_audit_entries _ _) = codes "/api/admin/audit"
path_of (Call.create_administrator _ _ _) = codes "/api/admin/users"
path_of (Call.reset_temporary_password id) =
    codes "/api/admin/users/" ++ str_uuid id ++ codes "/reset-temporary-password"
path_of Call.list_administrators = codes "/api/admin/users"
path_of _ = []

module _ ⦃p : Platform⦄ (settings : Settings) (headers : Headers) (w : World) where
  -- The account is the one that a valid token names, which was neither closed on its own nor issued
  -- by the cutoff of the account, and it may log in.
  abbrev pub IsSignedIn : User → Type 0
  IsSignedIn user =
      (token : Text) × (c : Claims) × (headers.authorization ≡ bearer_token token)
      × (p.jwt_decode w.clock settings.jwt_issuer token ≡ valid c)
      × (is_some (stored (revoked_token_key c.jti) w) ≡ false)
      × (issued_before (instant_of (stored (revoked_sessions_key c.sub) w)) (c.iat * second)
          ≡ false)
      × (find? (has_id c.sub) w.db.users ≡ some user)
      × (can_log_in user ≡ true)

  -- The caller is whom the call needs; `settles` says that the call is the change of the password.
  abbrev pub Permitted : Need → Bool → Type 0
  Permitted anyone settles = Unit
  Permitted an_owner settles =
      (user : User) × IsSignedIn user × ((user.must_change_password && not settles) ≡ false)
  Permitted an_administrator settles =
      (user : User) × IsSignedIn user
      × ((user.must_change_password && not settles) ≡ false)
      × (is_administrator user ≡ true)
  Permitted a_superadmin settles =
      (user : User) × IsSignedIn user
      × ((user.must_change_password && not settles) ≡ false)
      × (user.role ≡ Role.superadmin)
  Permitted another_service settles = headers.internal_token ≡ some settings.internal_api_token
