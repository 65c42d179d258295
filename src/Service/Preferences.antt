-- ===== src/Service/Preferences.antt =====
-- src/users_api/app/services/preferences.py
use udesa_x_users_api.Common.{Option, none, some, ◌==◌, if◌then◌else◌}
use udesa_x_users_api.Model.Account.{ProfileVisibility, FeedLanguage, User, language_eq}
use udesa_x_users_api.Model.Event.{preferences_changed}
use udesa_x_users_api.Platform.{Platform}
use udesa_x_users_api.World.Exec.{Action, pure, utc_now, ◌>>=◌, ◌>>◌}
use udesa_x_users_api.Store.Users
use udesa_x_users_api.Store.Records.{build_event, add_event}

-- The fields that the caller sent.
pub record PreferenceChanges : Type 0 where
  pub profile_visibility : Option ProfileVisibility
  pub feed_language : Option FeedLanguage

abbrev pub sent_or : {A : Type 0} → Option A → A → A
sent_or none old = old
sent_or (some new) old = new

abbrev pub with_preferences : User → PreferenceChanges → User
with_preferences u changes = record u {
  profile_visibility = sent_or changes.profile_visibility u.profile_visibility;
  feed_language = sent_or changes.feed_language u.feed_language;
}

module _ ⦃p : Platform⦄ where
  unfoldable pub update_preferences : User → PreferenceChanges → Action User
  update_preferences user changes = do
    let changed = with_preferences user changes
    Users.update changed
    if changed.feed_language == user.feed_language then pure changed else do
      at ← utc_now
      event ← build_event (preferences_changed changed) at
      add_event event
      pure changed
