-- ===== src/Api/Server/Routes.antt =====
-- Every route keeps the accounts and the tokens consistent.
mod Auth
mod Me
mod Backoffice
mod Internal
use udesa_x_users_api.Config.{Settings}
use udesa_x_users_api.Platform.{Platform}
use udesa_x_users_api.World.Ensures.{Keeps}
use udesa_x_users_api.Api.Bodies.{Libraries, Headers}
use udesa_x_users_api.Api.Server.{Call, route}
use udesa_x_users_api.Integrity.{IsConsistent}

module _ ⦃p : Platform⦄ (lib : Libraries) (settings : Settings) (headers : Headers) where
  pub route-Keeps : (call : Call) → Keeps IsConsistent (route lib settings headers call)
  unfolding route
  route-Keeps (Call.register email handle password terms_accepted) =
      Auth.register_call-Keeps lib settings headers email handle password terms_accepted
  route-Keeps (Call.verify token) = Auth.verify_call-Keeps lib settings headers token
  route-Keeps (Call.verify_from_link token) =
      Auth.verify_from_link_call-Keeps lib settings headers token
  route-Keeps (Call.resend_verification email) =
      Auth.resend_verification_call-Keeps lib settings headers email
  route-Keeps (Call.refresh refresh_token) =
      Auth.refresh_call-Keeps lib settings headers refresh_token
  route-Keeps (Call.forgot_password identifier) =
      Auth.forgot_password_call-Keeps lib settings headers identifier
  route-Keeps (Call.login identifier password) =
      Auth.login_call-Keeps lib settings headers identifier password
  route-Keeps (Call.admin_login email password) =
      Auth.admin_login_call-Keeps lib settings headers email password
  route-Keeps (Call.logout refresh_token) =
      Auth.logout_call-Keeps lib settings headers refresh_token
  route-Keeps (Call.reset_password token password confirmation) =
      Auth.reset_password_call-Keeps lib settings headers token password confirmation
  route-Keeps (Call.delete_account current) =
      Me.delete_account_call-Keeps lib settings headers current
  route-Keeps (Call.change_password current password confirmation) =
      Me.change_password_call-Keeps lib settings headers current password confirmation
  route-Keeps Call.get_profile = Me.get_profile_call-Keeps lib settings headers
  route-Keeps Call.get_preferences = Me.get_preferences_call-Keeps lib settings headers
  route-Keeps (Call.update_profile display_name bio) =
      Me.update_profile_call-Keeps lib settings headers display_name bio
  route-Keeps (Call.update_preferences visibility language) =
      Me.update_preferences_call-Keeps lib settings headers visibility language
  route-Keeps (Call.submit_feedback message device_os app_version) =
      Me.submit_feedback_call-Keeps lib settings headers message device_os app_version
  route-Keeps (Call.search_users q cursor) =
      Me.search_users_call-Keeps lib settings headers q cursor
  route-Keeps (Call.search_accounts q cursor) =
      Backoffice.search_accounts_call-Keeps lib settings headers q cursor
  route-Keeps (Call.create_administrator email handle role) =
      Backoffice.create_administrator_call-Keeps lib settings headers email handle role
  route-Keeps (Call.reset_temporary_password user_id) =
      Backoffice.reset_temporary_password_call-Keeps lib settings headers user_id
  route-Keeps (Call.account_detail user_id) =
      Backoffice.account_detail_call-Keeps lib settings headers user_id
  route-Keeps Call.list_administrators =
      Backoffice.list_administrators_call-Keeps lib settings headers
  route-Keeps Call.account_metrics = Backoffice.account_metrics_call-Keeps lib settings headers
  route-Keeps (Call.block_account user_id reason) =
      Backoffice.block_account_call-Keeps lib settings headers user_id reason
  route-Keeps (Call.list_audit_entries limit offset) =
      Backoffice.list_audit_entries_call-Keeps lib settings headers limit offset
  route-Keeps (Call.put_under_review id) =
      Internal.put_under_review_call-Keeps lib settings headers id
  route-Keeps (Call.lift_review id) = Internal.lift_review_call-Keeps lib settings headers id
  route-Keeps (Call.get_public_profile id) =
      Internal.get_public_profile_call-Keeps lib settings headers id
  route-Keeps (Call.administrator_identity id) =
      Internal.administrator_identity_call-Keeps lib settings headers id
