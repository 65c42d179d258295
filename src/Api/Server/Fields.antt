-- ===== src/Api/Server/Fields.antt =====
-- Reading the body of a request writes nothing.
use udesa_x_users_api.Common.{
  ◌≡◌, refl, Bool, true, false, none, some, Found, Text, codes, ◌==◌, text_eq, ltb, length,
  if◌then◌else◌,
}
use udesa_x_users_api.Model.Account.{Role, role_eq, ProfileVisibility, FeedLanguage}
use udesa_x_users_api.Model.Problem.{problem}
use udesa_x_users_api.Platform.{Platform}
use udesa_x_users_api.World.Ensures.{
  Keeps, ◌▹◌, raise-Ensures, if-Ensures, pure-Keeps, or_raise-Keeps,
}
use udesa_x_users_api.Api.Schemas.{Checked, valid, invalid, enforce_confirmation_matches}
use udesa_x_users_api.Api.Bodies.{
  Libraries, Sent, validation_failed, check_new_password, check_not_empty, check_display_name,
  sanitize_text, appointed_role, field, not_empty, email_field, confirmed_password, bio_field,
  name_field, profile_changes, not_null, preference_changes,
}
use udesa_x_users_api.Integrity.{IsConsistent}

-- The roles that an administrator may be created with.
pub appointed_role-Found :
    (role : Text) → Found (λ r. (r == Role.user) ≡ false) (appointed_role role)
appointed_role-Found role = choose (role == codes "moderator") (role == codes "superadmin")
  where
    choose :
        (a b : Bool)
        → Found
            (λ r. (r == Role.user) ≡ false)
            (if a then some Role.moderator else if b then some Role.superadmin else none)
    choose true b = refl
    choose false true = refl
    choose false false = tt

module _ ⦃p : Platform⦄ where
  pub field-Keeps : (c : Checked) → Keeps IsConsistent (field c)
  field-Keeps (valid value) = pure-Keeps value
  field-Keeps (invalid message) = raise-Ensures (problem validation_failed)

  pub not_empty-Keeps : (value : Text) → Keeps IsConsistent (not_empty value)
  not_empty-Keeps value = field-Keeps (check_not_empty value)

  pub email_field-Keeps :
      (lib : Libraries) (value : Text) → Keeps IsConsistent (email_field lib value)
  email_field-Keeps lib value = or_raise-Keeps (lib.email_str value) (problem validation_failed)

  pub confirmed_password-Keeps :
      (password confirmation : Text) → Keeps IsConsistent (confirmed_password password confirmation)
  unfolding confirmed_password
  confirmed_password-Keeps password confirmation =
      field-Keeps (check_new_password password) ▹ λ password _.
      not_empty-Keeps confirmation ▹ λ confirmed _.
      field-Keeps (enforce_confirmation_matches confirmed (some password)) ▹ λ _ _.
      pure-Keeps password

  bio_field-Keeps : (lib : Libraries) (bio : Sent Text) → Keeps IsConsistent (bio_field lib bio)
  unfolding bio_field
  bio_field-Keeps lib none = pure-Keeps none
  bio_field-Keeps lib (some none) = pure-Keeps (some none)
  bio_field-Keeps lib (some (some value)) =
      if-Ensures (ltb 160 (length value)) (λ _. raise-Ensures (problem validation_failed))
        (λ _. pure-Keeps (some (some (sanitize_text lib value))))

  name_field-Keeps : (lib : Libraries) (name : Sent Text) → Keeps IsConsistent (name_field lib name)
  name_field-Keeps lib none = pure-Keeps none
  name_field-Keeps lib (some sent) =
      field-Keeps (check_display_name lib sent) ▹ λ name _. pure-Keeps (some name)

  pub profile_changes-Keeps :
      (lib : Libraries) (display_name bio : Sent Text)
      → Keeps IsConsistent (profile_changes lib display_name bio)
  unfolding profile_changes
  profile_changes-Keeps lib display_name bio = name_field-Keeps lib display_name ▹ λ name _.
      bio_field-Keeps lib bio ▹ λ biography _.
      pure-Keeps (record { display_name = name; bio = biography })

  not_null-Keeps : {A : Type 0} (sent : Sent A) → Keeps IsConsistent (not_null sent)
  not_null-Keeps none = pure-Keeps none
  not_null-Keeps (some none) = raise-Ensures (problem validation_failed)
  not_null-Keeps (some (some value)) = pure-Keeps (some value)

  pub preference_changes-Keeps :
      (visibility : Sent ProfileVisibility) (language : Sent FeedLanguage)
      → Keeps IsConsistent (preference_changes visibility language)
  unfolding preference_changes
  preference_changes-Keeps visibility language = not_null-Keeps visibility ▹ λ profile_visibility _.
      not_null-Keeps language ▹ λ feed_language _.
      pure-Keeps (record { profile_visibility = profile_visibility; feed_language = feed_language })
