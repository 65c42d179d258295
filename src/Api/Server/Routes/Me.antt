-- ===== src/Api/Server/Routes/Me.antt =====
-- Each route of whoever is signed in keeps the accounts and the tokens consistent.
use udesa_x_users_api.Common.{suc, true, false, Option, map, Text, codes, ltb, length}
use udesa_x_users_api.Text.Uuid.{str_uuid}
use udesa_x_users_api.Config.{Settings}
use udesa_x_users_api.Model.Account.{ProfileVisibility, FeedLanguage}
use udesa_x_users_api.Model.Problem.{problem}
use udesa_x_users_api.Platform.{Platform}
use udesa_x_users_api.World.Ensures.{Keeps, ◌▹◌, raise_if-Keeps, gets-Keeps, pure-Keeps}
use udesa_x_users_api.Service.Search.{excluded_ids}
use udesa_x_users_api.Api.Schemas.{check_message}
use udesa_x_users_api.Api.Bodies.{Libraries, Headers, Sent, validation_failed, check_single_line}
use udesa_x_users_api.Api.Replies.{
  deleted, changed, profile, preferences, feedback_stored, user_page, profile_response,
  preferences_response, search_user_response,
}
use udesa_x_users_api.Api.Routes.Me
use udesa_x_users_api.Api.Server.Callers.{current_user-Ensures}
use udesa_x_users_api.Api.Server.Fields.{
  field-Keeps, not_empty-Keeps, confirmed_password-Keeps, profile_changes-Keeps,
  preference_changes-Keeps,
}
use udesa_x_users_api.Api.Server.Reads.{search-Keeps}
use udesa_x_users_api.Integrity.{IsConsistent}
use udesa_x_users_api.Integrity.Owners.{
  change_password-Keeps, delete_account-Keeps, update_profile-Keeps, update_preferences-Keeps,
  submit-Keeps,
}

module _ ⦃p : Platform⦄ (lib : Libraries) (settings : Settings) (headers : Headers) where
  pub delete_account_call-Keeps :
      (current : Text) → Keeps IsConsistent (Me.delete_account settings headers current)
  unfolding Me.delete_account
  delete_account_call-Keeps current =
      current_user-Ensures settings headers (codes "/api/me") ▹ λ user sound.
      not_empty-Keeps current ▹ λ current _.
      delete_account-Keeps settings user sound current ▹ λ _ _. pure-Keeps deleted

  pub change_password_call-Keeps :
      (current password confirmation : Text)
      → Keeps IsConsistent (Me.change_password settings headers current password confirmation)
  unfolding Me.change_password
  change_password_call-Keeps current password confirmation =
      current_user-Ensures settings headers (codes "/api/me/change-password") ▹ λ user sound.
      not_empty-Keeps current ▹ λ current _.
      confirmed_password-Keeps password confirmation ▹ λ password _.
      change_password-Keeps settings user sound current password ▹ λ _ _. pure-Keeps changed

  pub get_profile_call-Keeps : Keeps IsConsistent (Me.get_profile settings headers)
  unfolding Me.get_profile
  get_profile_call-Keeps = current_user-Ensures settings headers (codes "/api/me") ▹ λ user _.
      pure-Keeps (profile (profile_response user))

  pub get_preferences_call-Keeps : Keeps IsConsistent (Me.get_preferences settings headers)
  unfolding Me.get_preferences
  get_preferences_call-Keeps =
      current_user-Ensures settings headers (codes "/api/me/preferences") ▹ λ user _.
      pure-Keeps (preferences (preferences_response user))

  pub update_profile_call-Keeps :
      (display_name bio : Sent Text)
      → Keeps IsConsistent (Me.update_profile settings headers lib display_name bio)
  unfolding Me.update_profile
  update_profile_call-Keeps display_name bio =
      current_user-Ensures settings headers (codes "/api/me") ▹ λ user sound.
      profile_changes-Keeps lib display_name bio ▹ λ changes _.
      update_profile-Keeps user sound changes ▹ λ updated _.
      pure-Keeps (profile (profile_response updated))

  pub update_preferences_call-Keeps :
      (visibility : Sent ProfileVisibility) (language : Sent FeedLanguage)
      → Keeps IsConsistent (Me.update_preferences settings headers visibility language)
  unfolding Me.update_preferences
  update_preferences_call-Keeps visibility language =
      current_user-Ensures settings headers (codes "/api/me/preferences") ▹ λ user sound.
      preference_changes-Keeps visibility language ▹ λ changes _.
      update_preferences-Keeps user sound changes ▹ λ updated _.
      pure-Keeps (preferences (preferences_response updated))

  pub submit_feedback_call-Keeps :
      (message device_os app_version : Text)
      → Keeps IsConsistent (Me.submit_feedback settings headers message device_os app_version)
  unfolding Me.submit_feedback
  submit_feedback_call-Keeps message device_os app_version =
      current_user-Ensures settings headers (codes "/api/me/feedback") ▹ λ user _.
      field-Keeps (check_message message) ▹ λ message _.
      field-Keeps (check_single_line 64 device_os) ▹ λ device_os _.
      field-Keeps (check_single_line 32 app_version) ▹ λ app_version _.
      submit-Keeps user message device_os app_version ▹ λ feedback _.
      pure-Keeps (feedback_stored (str_uuid feedback.id))

  pub search_users_call-Keeps :
      (q : Text) (cursor : Option Text)
      → Keeps IsConsistent (Me.search_users settings headers lib q cursor)
  unfolding Me.search_users
  search_users_call-Keeps q cursor =
      current_user-Ensures settings headers (codes "/api/search/users") ▹ λ user _.
      raise_if-Keeps (ltb (length q) 3) (problem validation_failed) ▹ λ _ _.
      gets-Keeps (λ w. length w.db.users) ▹ λ accounts _.
      search-Keeps
        (λ ids. excluded_ids (lib.posts_api false user.id ids) (lib.posts_api true user.id ids))
        lib.other_spelling (suc (suc accounts)) q cursor
      ▹ λ found _.
          let (candidates, next_cursor) = found in
          pure-Keeps (user_page (map search_user_response candidates) next_cursor)
