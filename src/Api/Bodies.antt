-- ===== src/Api/Bodies.antt =====
-- What a request brings, and how src/users_api/api/schemas reads it: a field that its rule refuses
-- ends the request with the one answer of `validation_error_handler`, whose list of fields is left
-- out. The addresses that EmailStr takes, what nh3 leaves of a text, and the answers of posts-api are
-- functions; what HTTPBearer makes of its header comes with the request. No answer shows the messages
-- of the rules.
use udesa_x_users_api.Common.{
  ℕ, Bool, not, ◌&&◌, ◌||◌, Option, none, some, List, Text, codes, ◌==◌, nat_eq, text_eq, ltb, all,
  length, if◌then◌else◌,
}
use udesa_x_users_api.Text.{strip}
use udesa_x_users_api.Model.Account.{Role, ProfileVisibility, FeedLanguage}
use udesa_x_users_api.Model.Problem.{Problem, problem, says}
use udesa_x_users_api.Platform.{Platform}
use udesa_x_users_api.World.Exec.{Action, pure, raise, or_raise, ◌>>=◌, ◌>>◌}
use udesa_x_users_api.Store.Searches.{Cursor}
use udesa_x_users_api.Service.Profile.{ProfileChanges}
use udesa_x_users_api.Service.Preferences.{PreferenceChanges}
use udesa_x_users_api.Api.Schemas.{
  Checked, valid, invalid, enforce_password_policy, enforce_confirmation_matches,
}

pub record Libraries : Type 0 where
  -- The address as `EmailStr` gives it back, where it is one.
  pub email_str : Text → Option Text
  -- `nh3.clean(value, tags=set())`
  pub clean : Text → Text
  -- What UTF-8, `fromisoformat` and `UUID` make of a cursor that the service did not spell.
  pub other_spelling : List ℕ → Option Cursor
  -- Whom posts-api leaves out of the ids for a viewer, at the first or the second attempt.
  pub posts_api : Bool → ℕ → List ℕ → Option (List ℕ)

-- What `HTTPBearer` makes of the header `Authorization`: its token, or the refusal it answers.
pub data Authorization : Type 0 where
  bearer_token : Text → Authorization
  rejected : Problem → Authorization

-- The two headers that the guards read.
pub record Headers : Type 0 where
  pub authorization : Authorization
  pub internal_token : Option Text

abbrev pub validation_failed : Problem
validation_failed = record {
  http_status = 422;
  code = "validation-failed";
  title = "La solicitud tiene campos inválidos";
  detail = says "Revisá los campos indicados y volvé a intentar.";
  retry_after = none;
}

-- A field that is sent, and may be sent as `null`.
abbrev pub Sent : Type 0 → Type 0
Sent A = Option (Option A)

unfoldable pub check_new_password : Text → Checked
unfolding enforce_password_policy
check_new_password value =
    if ltb (length value) 8
    then invalid "String should have at least 8 characters"
    else enforce_password_policy value

unfoldable pub check_not_empty : Text → Checked
check_not_empty value =
    if length value == 0 then invalid "String should have at least 1 character" else valid value

-- `[^\x00-\x1f\x7f]`
abbrev pub is_printed : ℕ → Bool
is_printed c = not (ltb c 32) && not (c == 127)

-- A text of one line, of at most `most` characters.
unfoldable pub check_single_line : ℕ → Text → Checked
check_single_line most value =
    if ltb (length value) 1 || ltb most (length value)
    then invalid "String should have between 1 and the most characters"
    else if all is_printed value
    then valid value
    else invalid "String should match pattern"

unfoldable pub sanitize_text : Libraries → Text → Text
sanitize_text lib value = strip (lib.clean value)

unfoldable pub check_display_name : Libraries → Option Text → Checked
unfolding sanitize_text
check_display_name lib none = invalid "El nombre visible no puede quedar vacío"
check_display_name lib (some value) =
    if ltb 50 (length value)
    then invalid "String should have at most 50 characters"
    else if length (sanitize_text lib value) == 0
    then invalid "El nombre visible no puede quedar vacío"
    else valid (sanitize_text lib value)

abbrev pub appointed_role : Text → Option Role
appointed_role role =
    if role == codes "moderator"
    then some Role.moderator
    else if role == codes "superadmin"
    then some Role.superadmin
    else none

module _ ⦃p : Platform⦄ where
  abbrev pub field : Checked → Action Text
  field (valid value) = pure value
  field (invalid message) = raise (problem validation_failed)

  abbrev pub not_empty : Text → Action Text
  not_empty value = field (check_not_empty value)

  abbrev pub email_field : Libraries → Text → Action Text
  email_field lib value = or_raise (lib.email_str value) (problem validation_failed)

  -- `password` and `password_confirmation`
  unfoldable pub confirmed_password : Text → Text → Action Text
  unfolding check_new_password enforce_confirmation_matches check_not_empty
  confirmed_password password confirmation = do
    password ← field (check_new_password password)
    confirmed ← not_empty confirmation
    field (enforce_confirmation_matches confirmed (some password))
    pure password

  -- A biography may be sent as `null`.
  unfoldable pub bio_field : Libraries → Sent Text → Action (Sent Text)
  unfolding sanitize_text
  bio_field lib none = pure none
  bio_field lib (some none) = pure (some none)
  bio_field lib (some (some value)) =
      if ltb 160 (length value)
      then raise (problem validation_failed)
      else pure (some (some (sanitize_text lib value)))

  abbrev pub name_field : Libraries → Sent Text → Action (Option Text)
  name_field lib none = pure none
  name_field lib (some sent) = field (check_display_name lib sent) >>= λ name. pure (some name)

  unfoldable pub profile_changes : Libraries → Sent Text → Sent Text → Action ProfileChanges
  unfolding check_display_name bio_field
  profile_changes lib display_name bio = do
    name ← name_field lib display_name
    biography ← bio_field lib bio
    pure (record { display_name = name; bio = biography })

  -- `reject_null_when_present`
  abbrev pub not_null : {A : Type 0} → Sent A → Action (Option A)
  not_null none = pure none
  not_null (some none) = raise (problem validation_failed)
  not_null (some (some value)) = pure (some value)

  unfoldable pub preference_changes :
      Sent ProfileVisibility → Sent FeedLanguage → Action PreferenceChanges
  preference_changes visibility language = do
    profile_visibility ← not_null visibility
    feed_language ← not_null language
    pure (record { profile_visibility = profile_visibility; feed_language = feed_language })
