-- ===== src/Service/Profile.antt =====
-- src/users_api/app/services/profile.py
use udesa_x_users_api.Common.{ℕ, Option, none, some, Text}
use udesa_x_users_api.Model.Account.{User, is_deleted}
use udesa_x_users_api.Model.Problem.{Problem, problem}
use udesa_x_users_api.Platform.{Platform}
use udesa_x_users_api.World.Exec.{Action, pure, or_raise, raise_if, ◌>>=◌, ◌>>◌}
use udesa_x_users_api.Store.Users
use udesa_x_users_api.Service.AccountBlock.{account_not_found}
use udesa_x_users_api.Service.Preferences.{sent_or}

-- The fields that the caller sent. A biography may be sent as nothing.
pub record ProfileChanges : Type 0 where
  pub display_name : Option Text
  pub bio : Option (Option Text)

abbrev pub sent_name : Option Text → Option Text → Option Text
sent_name none old = old
sent_name (some name) old = some name

abbrev pub with_profile : User → ProfileChanges → User
with_profile u changes = record u {
  display_name = sent_name changes.display_name u.display_name;
  bio = sent_or changes.bio u.bio;
}

abbrev pub profile_not_found : Problem
profile_not_found = account_not_found "No se encontró la cuenta"

module _ ⦃p : Platform⦄ where
  unfoldable pub update_profile : User → ProfileChanges → Action User
  update_profile user changes = do
    Users.update (with_profile user changes)
    pure (with_profile user changes)

  unfoldable pub public_profile : ℕ → Action User
  public_profile user_id = do
    found ← Users.get user_id
    user ← or_raise found (problem profile_not_found)
    raise_if (is_deleted user) (problem profile_not_found)
    pure user
