-- ===== src/Api/Routes/Me.antt =====
-- src/users_api/api/{account_deletion,password_change,profile,preferences,feedback,search}.py: the
-- routes of whoever is signed in.
use udesa_x_users_api.Common.{suc, true, false, Option, map, Text, codes, ltb, length}
use udesa_x_users_api.Text.Uuid.{str_uuid}
use udesa_x_users_api.Config.{Settings}
use udesa_x_users_api.Model.Account.{User, ProfileVisibility, FeedLanguage}
use udesa_x_users_api.Model.Problem.{problem}
use udesa_x_users_api.Platform.{Platform}
use udesa_x_users_api.World.Exec.{Action, pure, gets, raise_if, ◌>>=◌, ◌>>◌}
use udesa_x_users_api.Service.AccountDeletion
use udesa_x_users_api.Service.PasswordChange
use udesa_x_users_api.Service.Profile
use udesa_x_users_api.Service.Preferences
use udesa_x_users_api.Service.Feedback
use udesa_x_users_api.Service.Search
use udesa_x_users_api.Service.Search.{excluded_ids}
use udesa_x_users_api.Api.Schemas.{check_message}
use udesa_x_users_api.Api.Bodies.{
  Libraries, Headers, Sent, validation_failed, check_not_empty, check_single_line, field, not_empty,
  confirmed_password, profile_changes, preference_changes,
}
use udesa_x_users_api.Api.Replies.{
  Reply, deleted, changed, profile, preferences, feedback_stored, user_page, profile_response,
  preferences_response, search_user_response,
}
use udesa_x_users_api.Api.CurrentUser.{get_current_user}
use udesa_x_users_api.Api.Routes.Auth.{bearer}

module _ ⦃p : Platform⦄ (settings : Settings) (headers : Headers) where
  -- `CurrentUserDep`, on the path of the request.
  unfoldable pub current_user : Text → Action User
  current_user path = do token ← bearer headers.authorization; get_current_user settings token path

  unfoldable pub delete_account : Text → Action Reply
  unfolding check_not_empty
  delete_account current_password = do
    user ← current_user (codes "/api/me")
    current_password ← not_empty current_password
    AccountDeletion.delete_account settings user current_password
    pure deleted

  unfoldable pub change_password : Text → Text → Text → Action Reply
  unfolding check_not_empty confirmed_password
  change_password current_password password password_confirmation = do
    user ← current_user (codes "/api/me/change-password")
    current_password ← not_empty current_password
    password ← confirmed_password password password_confirmation
    PasswordChange.change_password settings user current_password password
    pure changed

  unfoldable pub get_profile : Action Reply
  get_profile = do user ← current_user (codes "/api/me"); pure (profile (profile_response user))

  unfoldable pub update_profile : Libraries → Sent Text → Sent Text → Action Reply
  unfolding profile_changes
  update_profile lib display_name bio = do
    user ← current_user (codes "/api/me")
    changes ← profile_changes lib display_name bio
    updated ← Profile.update_profile user changes
    pure (profile (profile_response updated))

  unfoldable pub get_preferences : Action Reply
  get_preferences = do
    user ← current_user (codes "/api/me/preferences")
    pure (preferences (preferences_response user))

  unfoldable pub update_preferences : Sent ProfileVisibility → Sent FeedLanguage → Action Reply
  unfolding preference_changes
  update_preferences profile_visibility feed_language = do
    user ← current_user (codes "/api/me/preferences")
    changes ← preference_changes profile_visibility feed_language
    updated ← Preferences.update_preferences user changes
    pure (preferences (preferences_response updated))

  unfoldable pub submit_feedback : Text → Text → Text → Action Reply
  unfolding check_message check_single_line
  submit_feedback message device_os app_version = do
    user ← current_user (codes "/api/me/feedback")
    message ← field (check_message message)
    device_os ← field (check_single_line 64 device_os)
    app_version ← field (check_single_line 32 app_version)
    feedback ← Feedback.submit user message device_os app_version
    pure (feedback_stored (str_uuid feedback.id))

  -- The loop of the search has fuel for one batch more than there are accounts.
  unfoldable pub search_users : Libraries → Text → Option Text → Action Reply
  search_users lib q cursor = do
    user ← current_user (codes "/api/search/users")
    raise_if (ltb (length q) 3) (problem validation_failed)
    accounts ← gets (λ w. length w.db.users)
    (candidates, next_cursor) ←
        Search.search
          (λ ids. excluded_ids (lib.posts_api false user.id ids) (lib.posts_api true user.id ids))
          lib.other_spelling (suc (suc accounts)) q cursor
    pure (user_page (map search_user_response candidates) next_cursor)
