-- ===== src/Integrity/Owners.antt =====
-- What somebody signed in does to the own account keeps the accounts and the tokens consistent.
use udesa_x_users_api.Common.{◌*◌, ◌≡◌, false, some, Text, ltb, ◌==◌}
use udesa_x_users_api.Config.{Settings}
use udesa_x_users_api.Model.Account.{User, is_administrator, language_eq}
use udesa_x_users_api.Model.Event.{
  Feedback, password_changed, user_deleted, preferences_changed, feedback_submitted,
}
use udesa_x_users_api.Model.Problem.{problem}
use udesa_x_users_api.Platform.{Platform}
use udesa_x_users_api.World.Ensures.{
  Keeps, ◌▹◌, raise_if-Keeps, raise_if-Ensures, if-Ensures, pure-Keeps, utc_now-Keeps, draw-Keeps,
}
use udesa_x_users_api.Security.{verify_password}
use udesa_x_users_api.Service.Auth.Login.{session_seconds}
use udesa_x_users_api.Service.PasswordReset.{password_unchanged, change_failed_title}
use udesa_x_users_api.Service.PasswordChange.{with_own_password, set_password, change_password}
use udesa_x_users_api.Service.AccountDeletion.{
  administrator_cannot_delete_account, deletion_failed_title, deleted, close_account,
  delete_account,
}
use udesa_x_users_api.Service.Profile.{ProfileChanges, with_profile, update_profile}
use udesa_x_users_api.Service.Preferences.{PreferenceChanges, with_preferences, update_preferences}
use udesa_x_users_api.Service.Feedback.{
  feedback_limit_key, window_minutes, max_messages, too_many_feedback_messages, guard_limit, submit,
}
use udesa_x_users_api.Integrity.{IsSound, IsConsistent}
use udesa_x_users_api.Integrity.Statements.{update-Keeps}
use udesa_x_users_api.Integrity.Tables.{
  build_event-Keeps, add_event-Keeps, add_feedback-Keeps, revoke_all-Keeps,
}
use udesa_x_users_api.Integrity.Redis.{hit-Keeps, revoke_sessions-Keeps}
use udesa_x_users_api.Integrity.Guards.{hash_password-Keeps, verify-Keeps, forget_attempts-Keeps}
use udesa_x_users_api.Integrity.Changes.{
  with_own_password-IsSound, deleted-IsSound, with_profile-IsSound, with_preferences-IsSound,
}
use udesa_x_users_api.Integrity.Accounts.{announce-Keeps}

module _ ⦃p : Platform⦄ (settings : Settings) (user : User) (sound : IsSound user) where
  set_password-Keeps :
      (new_password : Text) → Keeps IsConsistent (set_password settings user new_password)
  unfolding set_password
  set_password-Keeps new_password =
      raise_if-Keeps (verify_password new_password (some user.password_hash))
        (problem password_unchanged)
      ▹ λ _ _. hash_password-Keeps new_password ▹ λ hash _.
          update-Keeps (with_own_password user hash) (with_own_password-IsSound user sound hash)
          ▹ λ _ _. forget_attempts-Keeps settings user ▹ λ _ _. utc_now-Keeps ▹ λ at _.
              revoke_sessions-Keeps user.id at (session_seconds settings) ▹ λ _ _.
              revoke_all-Keeps user.id at ▹ λ _ _. announce-Keeps (password_changed user) at

  pub change_password-Keeps :
      (current new : Text) → Keeps IsConsistent (change_password settings user current new)
  unfolding change_password
  change_password-Keeps current new =
      verify-Keeps settings user current change_failed_title ▹ λ _ _. set_password-Keeps new

  close_account-Keeps :
      is_administrator user ≡ false → Keeps IsConsistent (close_account settings user)
  unfolding close_account
  close_account-Keeps plain = utc_now-Keeps ▹ λ at _.
      update-Keeps (deleted user at) (deleted-IsSound user sound at plain) ▹ λ _ _.
      build_event-Keeps (user_deleted user) at ▹ λ event _. add_event-Keeps event ▹ λ _ _.
      revoke_sessions-Keeps user.id at (session_seconds settings) ▹ λ _ _.
      revoke_all-Keeps user.id at

  pub delete_account-Keeps :
      (current : Text) → Keeps IsConsistent (delete_account settings user current)
  unfolding delete_account
  delete_account-Keeps current =
      raise_if-Ensures (is_administrator user) (problem administrator_cannot_delete_account)
      ▹ λ _ plain. verify-Keeps settings user current deletion_failed_title ▹ λ _ _.
          close_account-Keeps plain

module _ ⦃p : Platform⦄ (user : User) (sound : IsSound user) where
  pub update_profile-Keeps :
      (changes : ProfileChanges) → Keeps IsConsistent (update_profile user changes)
  unfolding update_profile
  update_profile-Keeps changes =
      update-Keeps (with_profile user changes) (with_profile-IsSound user sound changes) ▹ λ _ _.
      pure-Keeps (with_profile user changes)

  pub update_preferences-Keeps :
      (changes : PreferenceChanges) → Keeps IsConsistent (update_preferences user changes)
  unfolding update_preferences
  update_preferences-Keeps changes =
      let changed = with_preferences user changes in
      update-Keeps changed (with_preferences-IsSound user sound changes) ▹ λ _ _.
      if-Ensures (changed.feed_language == user.feed_language) (λ _. pure-Keeps changed)
        λ _. utc_now-Keeps ▹ λ at _. build_event-Keeps (preferences_changed changed) at ▹ λ event _.
          add_event-Keeps event ▹ λ _ _. pure-Keeps changed

module _ ⦃p : Platform⦄ (user : User) where
  pub submit-Keeps :
      (message device_os app_version : Text)
      → Keeps IsConsistent (submit user message device_os app_version)
  unfolding submit guard_limit
  submit-Keeps message device_os app_version =
      (hit-Keeps (feedback_limit_key user.id) (window_minutes * 60) ▹ λ sent _.
      raise_if-Keeps (ltb max_messages sent) (problem too_many_feedback_messages))
      ▹ λ _ _. draw-Keeps ▹ λ n _. utc_now-Keeps ▹ λ at _.
          let feedback : Feedback = record {
            id = p.uuid4 n;
            user_id = user.id;
            handle = user.handle;
            message = message;
            device_os = device_os;
            app_version = app_version;
            created_at = at;
          } in
          add_feedback-Keeps feedback ▹ λ _ _.
          build_event-Keeps (feedback_submitted feedback) feedback.created_at ▹ λ event _.
          add_event-Keeps event ▹ λ _ _. pure-Keeps feedback
