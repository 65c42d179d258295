-- ===== src/Integrity/Changes.antt =====
-- Each change that the services make to an account leaves it sound.
use udesa_x_users_api.Common.{ℕ, ◌≡◌, refl, true, false, none, some, Text, arith, ◌==◌}
use udesa_x_users_api.Text.{normalise}
use udesa_x_users_api.Text.Laws.{normalise_idem}
use udesa_x_users_api.Model.Account.{
  Role, User, role_eq, active, suspended, under_review, is_administrator, is_deleted, change_status,
}
use udesa_x_users_api.Platform.{Platform}
use udesa_x_users_api.Service.Auth.Registration.{new_account, verified}
use udesa_x_users_api.Service.PasswordReset.{with_password}
use udesa_x_users_api.Service.PasswordChange.{with_own_password}
use udesa_x_users_api.Service.AccountDeletion.{deleted}
use udesa_x_users_api.Service.Admins.{seeded_superadmin, new_administrator, with_temporary_password}
use udesa_x_users_api.Service.Profile.{ProfileChanges, with_profile}
use udesa_x_users_api.Service.Preferences.{PreferenceChanges, with_preferences}
use udesa_x_users_api.Integrity.{IsSound}

module _ (email handle hash : Text) (now id created_at : ℕ) where
  pub new_account-IsSound :
      IsSound (new_account (normalise email) (normalise handle) hash now id created_at)
  unfolding is_administrator is_deleted
  new_account-IsSound = record {
    reason = refl;
    dated = refl;
    never_suspended = refl;
    never_deleted = refl;
    checked = refl;
    due = refl;
    due_role = refl;
    email = normalise_idem email;
    handle = normalise_idem handle;
  }

  pub seeded_superadmin-IsSound :
      IsSound (seeded_superadmin (normalise email) (normalise handle) hash now id created_at)
  unfolding is_administrator is_deleted
  seeded_superadmin-IsSound = record {
    reason = refl;
    dated = refl;
    never_suspended = refl;
    never_deleted = refl;
    checked = refl;
    due = refl;
    due_role = refl;
    email = normalise_idem email;
    handle = normalise_idem handle;
  }

  pub new_administrator-IsSound :
      (role : Role)
      → (role == Role.user) ≡ false
      → IsSound (new_administrator (normalise email) (normalise handle) hash role now id created_at)
  unfolding is_administrator is_deleted
  new_administrator-IsSound role appointed = record {
    reason = refl;
    dated = refl;
    never_suspended = refl;
    never_deleted = refl;
    checked = ground arith;
    due = refl;
    due_role = ground arith;
    email = normalise_idem email;
    handle = normalise_idem handle;
  }

module _ (u : User) (h : IsSound u) where
  pub verified-IsSound : IsSound (verified u)
  unfolding is_administrator is_deleted
  verified-IsSound = ground (arith, h)

  pub with_password-IsSound : (hash : Text) → IsSound (with_password u hash)
  unfolding is_administrator is_deleted
  with_password-IsSound hash = ground (arith, h)

  pub with_own_password-IsSound : (hash : Text) → IsSound (with_own_password u hash)
  unfolding is_administrator is_deleted
  with_own_password-IsSound hash = ground (arith, h)

  pub deleted-IsSound : (at : ℕ) → is_administrator u ≡ false → IsSound (deleted u at)
  unfolding is_administrator is_deleted
  deleted-IsSound at plain = ground (arith, h)

  pub suspended-IsSound :
      (at : ℕ) (reason : Text)
      → is_administrator u ≡ false
      → IsSound (change_status u suspended at (some reason))
  unfolding is_administrator is_deleted change_status
  suspended-IsSound at reason plain = ground (arith, h)

  pub under_review-IsSound : (at : ℕ) → IsSound (change_status u under_review at none)
  unfolding is_administrator is_deleted change_status
  under_review-IsSound at = ground (arith, h)

  pub active-IsSound : (at : ℕ) → IsSound (change_status u active at none)
  unfolding is_administrator is_deleted change_status
  active-IsSound at = ground (arith, h)

  pub with_temporary_password-IsSound :
      ⦃p : Platform⦄ (hash : Text) (now : ℕ)
      → u.must_change_password ≡ true
      → IsSound (with_temporary_password u hash now)
  unfolding is_administrator is_deleted
  with_temporary_password-IsSound hash now due = ground (arith, h)

  pub with_profile-IsSound : (changes : ProfileChanges) → IsSound (with_profile u changes)
  unfolding is_administrator is_deleted
  with_profile-IsSound changes = ground (arith, h)

  pub with_preferences-IsSound :
      (changes : PreferenceChanges) → IsSound (with_preferences u changes)
  unfolding is_administrator is_deleted
  with_preferences-IsSound changes = ground (arith, h)
