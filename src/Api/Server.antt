-- ===== src/Api/Server.antt =====
-- Every route of the service behind one door: the calls, and the answer to each with what it leaves of
-- the world.
pub mod Callers
pub mod Fields
pub mod Reads
pub mod Routes
pub mod Consistency
pub mod Needs
pub mod Access
use udesa_x_users_api.Common.{ℕ, Bool, true, false, Option, List, [], ◌∷◌, Text}
use udesa_x_users_api.Config.{Settings}
use udesa_x_users_api.Model.Account.{ProfileVisibility, FeedLanguage}
use udesa_x_users_api.Platform.{Platform}
use udesa_x_users_api.World.State.{World}
use udesa_x_users_api.World.Exec.{Action, pure, ◌>>=◌}
use udesa_x_users_api.Store.Searches.{Cursor}
use udesa_x_users_api.Api.Bodies.{Libraries, Headers, Sent}
use udesa_x_users_api.Api.Replies.{Reply}
use udesa_x_users_api.Api.Request.{Answer, success, respond, flatten}
use udesa_x_users_api.Api.Routes.Auth
use udesa_x_users_api.Api.Routes.Me
use udesa_x_users_api.Api.Routes.Backoffice
use udesa_x_users_api.Api.Routes.Internal

-- A route with what the request brings for it.
pub data Call : Type 0 where
  register : (email handle password : Text) (terms_accepted : Bool) → Call
  verify verify_from_link resend_verification refresh forgot_password : Text → Call
  login admin_login : (name password : Text) → Call
  logout : (refresh_token : Option Text) → Call
  reset_password : (token password password_confirmation : Text) → Call
  delete_account : (current_password : Text) → Call
  change_password : (current_password password password_confirmation : Text) → Call
  get_profile get_preferences : Call
  update_profile : (display_name bio : Sent Text) → Call
  update_preferences : Sent ProfileVisibility → Sent FeedLanguage → Call
  submit_feedback : (message device_os app_version : Text) → Call
  search_users search_accounts : (q : Text) (cursor : Option Text) → Call
  create_administrator : (email handle role : Text) → Call
  reset_temporary_password account_detail : (user_id : ℕ) → Call
  list_administrators account_metrics : Call
  block_account : (user_id : ℕ) (reason : Text) → Call
  list_audit_entries : (limit offset : ℕ) → Call
  put_under_review lift_review get_public_profile administrator_identity : (id : ℕ) → Call

module _ ⦃p : Platform⦄ (lib : Libraries) (settings : Settings) where
  -- The routes that raise what they refuse: all but `refresh`, which answers a reuse.
  unfoldable pub route : Headers → Call → Action Reply
  route headers (register email handle password terms_accepted) =
      Auth.register lib settings email handle password terms_accepted
  route headers (verify token) = Auth.verify token
  route headers (verify_from_link token) = Auth.verify_from_link token
  route headers (resend_verification email) = Auth.resend_verification lib settings email
  route headers (refresh refresh_token) = Auth.refresh_session settings refresh_token
  route headers (forgot_password identifier) = Auth.forgot_password settings identifier
  route headers (login identifier password) = Auth.login settings identifier password
  route headers (admin_login email password) = Auth.admin_login lib settings email password
  route headers (logout refresh_token) = Auth.logout settings headers refresh_token
  route headers (reset_password token password confirmation) =
      Auth.reset_password settings token password confirmation
  route headers (delete_account current) = Me.delete_account settings headers current
  route headers (change_password current password confirmation) =
      Me.change_password settings headers current password confirmation
  route headers get_profile = Me.get_profile settings headers
  route headers get_preferences = Me.get_preferences settings headers
  route headers (update_profile display_name bio) =
      Me.update_profile settings headers lib display_name bio
  route headers (update_preferences visibility language) =
      Me.update_preferences settings headers visibility language
  route headers (submit_feedback message device_os app_version) =
      Me.submit_feedback settings headers message device_os app_version
  route headers (search_users q cursor) = Me.search_users settings headers lib q cursor
  route headers (search_accounts q cursor) =
      Backoffice.search_accounts settings headers lib q cursor
  route headers (create_administrator email handle role) =
      Backoffice.create_administrator settings headers lib email handle role
  route headers (reset_temporary_password user_id) =
      Backoffice.reset_temporary_password settings headers user_id
  route headers (account_detail user_id) = Backoffice.account_detail settings headers user_id
  route headers list_administrators = Backoffice.list_administrators_route settings headers
  route headers account_metrics = Backoffice.account_metrics settings headers
  route headers (block_account user_id reason) =
      Backoffice.block_account settings headers user_id reason
  route headers (list_audit_entries limit offset) =
      Backoffice.list_audit_entries settings headers limit offset
  route headers (put_under_review id) = Internal.put_under_review settings headers id
  route headers (lift_review id) = Internal.lift_review settings headers id
  route headers (get_public_profile id) = Internal.get_public_profile settings headers id
  route headers (administrator_identity id) = Internal.administrator_identity settings headers id

  -- One request in its transaction. The token of a session that is refreshed may turn out reused.
  unfoldable pub serve : Headers → Call → World → Answer Reply × World
  unfolding respond
  serve headers (refresh refresh_token) w =
      let (answer, w') = respond (Auth.refresh settings refresh_token) w in (flatten answer, w')
  serve headers call w = respond (route headers call) w

  -- Requests one after the other, each at its time.
  unfoldable pub serve_all : List (ℕ × Headers × Call) → World → World
  unfolding serve
  serve_all [] w = w
  serve_all ((at, headers, call) ∷ rest) w =
      serve_all rest (serve headers call (record w { clock = at })).1
