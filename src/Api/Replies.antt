-- ===== src/Api/Replies.antt =====
-- The bodies of the successful answers: the response models of src/users_api/api/schemas and of the
-- routes, and the functions that fill them.
use udesa_x_users_api.Common.{ℕ, Bool, false, not, Option, none, some, List, Text}
use udesa_x_users_api.Text.Uuid.{str_uuid}
use udesa_x_users_api.Model.Account.{
  User, AccountStatus, ProfileVisibility, FeedLanguage, protected, everyone,
}
use udesa_x_users_api.Security.{role_value, visibility_value}
use udesa_x_users_api.Store.AuditLog.{AuditEntryWithTarget}
use udesa_x_users_api.Service.Auth.Login.{IssuedSession, AdminSession}
use udesa_x_users_api.Service.Metrics.{AccountMetrics}
use udesa_x_users_api.Service.Admins.{CredentialStatus, temporary_password_status}

pub record RegisterResponse : Type 0 where
  pub id : Text
  pub email : Text
  pub handle : Text

-- The type of the token is always "bearer".
pub record LoginResponse : Type 0 where
  pub access_token : Text
  pub expires_in : ℕ
  pub refresh_token : Option Text
  pub must_change_password : Bool

pub record AdministratorCredentialResponse : Type 0 where
  pub id : Text
  pub email : Text
  pub handle : Text
  pub role : Text
  pub temporary_password : Text

pub record AdministratorResponse : Type 0 where
  pub id : Text
  pub email : Text
  pub handle : Text
  pub role : Text
  pub temporary_password_status : Option CredentialStatus
  pub temporary_password_expires_at : Option ℕ

pub record UserAccountResponse : Type 0 where
  pub id : Text
  pub email : Text
  pub handle : Text
  pub display_name : Option Text
  pub status : AccountStatus
  pub status_reason : Option Text
  pub status_changed_at : Option ℕ
  pub is_email_verified : Bool
  pub created_at : ℕ

pub record ProfileResponse : Type 0 where
  pub id : Text
  pub email : Text
  pub handle : Text
  pub display_name : Option Text
  pub bio : Option Text

pub record PublicProfileResponse : Type 0 where
  pub id : Text
  pub handle : Text
  pub display_name : Option Text
  pub bio : Option Text
  pub created_at : ℕ
  pub profile_visibility : Text

pub record PreferencesResponse : Type 0 where
  pub profile_visibility : ProfileVisibility
  pub feed_language : FeedLanguage

pub record SearchUserResponse : Type 0 where
  pub id : ℕ
  pub handle : Text
  pub display_name : Option Text
  pub is_private : Bool

pub record AdministratorIdentity : Type 0 where
  pub id : ℕ
  pub email : Text

unfoldable pub register_response : User → RegisterResponse
register_response user = record { id = str_uuid user.id; email = user.email; handle = user.handle }

unfoldable pub login_response : IssuedSession → LoginResponse
login_response session = record {
  access_token = session.access_token;
  expires_in = session.expires_in;
  refresh_token = some session.refresh_token;
  must_change_password = false;
}

unfoldable pub admin_login_response : AdminSession → LoginResponse
admin_login_response session = record {
  access_token = session.access_token;
  expires_in = session.expires_in;
  refresh_token = none;
  must_change_password = session.must_change_password;
}

unfoldable pub credential : User → Text → AdministratorCredentialResponse
credential user temporary_password = record {
  id = str_uuid user.id;
  email = user.email;
  handle = user.handle;
  role = role_value user.role;
  temporary_password = temporary_password;
}

unfoldable pub administrator_response : ℕ → User → AdministratorResponse
administrator_response now user = record {
  id = str_uuid user.id;
  email = user.email;
  handle = user.handle;
  role = role_value user.role;
  temporary_password_status = temporary_password_status user now;
  temporary_password_expires_at = user.temporary_password_expires_at;
}

unfoldable pub account_response : User → UserAccountResponse
account_response user = record {
  id = str_uuid user.id;
  email = user.email;
  handle = user.handle;
  display_name = user.display_name;
  status = user.status;
  status_reason = user.status_reason;
  status_changed_at = user.status_changed_at;
  is_email_verified = user.is_email_verified;
  created_at = user.created_at;
}

unfoldable pub profile_response : User → ProfileResponse
profile_response user = record {
  id = str_uuid user.id;
  email = user.email;
  handle = user.handle;
  display_name = user.display_name;
  bio = user.bio;
}

unfoldable pub public_profile_response : User → PublicProfileResponse
public_profile_response user = record {
  id = str_uuid user.id;
  handle = user.handle;
  display_name = user.display_name;
  bio = user.bio;
  created_at = user.created_at;
  profile_visibility = visibility_value user.profile_visibility;
}

unfoldable pub preferences_response : User → PreferencesResponse
preferences_response user = record {
  profile_visibility = user.profile_visibility;
  feed_language = user.feed_language;
}

abbrev pub is_protected : ProfileVisibility → Bool
is_protected everyone = false
is_protected protected = not false

unfoldable pub search_user_response : User → SearchUserResponse
search_user_response user = record {
  id = user.id;
  handle = user.handle;
  display_name = user.display_name;
  is_private = is_protected user.profile_visibility;
}

pub data Reply : Type 0 where
  registered : RegisterResponse → Reply
  verified reset : (handle : Text) → Reply
  accepted no_content deleted changed : Reply
  signed_in : LoginResponse → Reply
  credentials : AdministratorCredentialResponse → Reply
  administrators : List AdministratorResponse → Reply
  account_page : List UserAccountResponse → Option Text → Reply
  account : UserAccountResponse → Reply
  profile : ProfileResponse → Reply
  public_profile : PublicProfileResponse → Reply
  preferences : PreferencesResponse → Reply
  feedback_stored : (id : Text) → Reply
  user_page : List SearchUserResponse → Option Text → Reply
  metrics : AccountMetrics → Reply
  audit_page : List AuditEntryWithTarget → (total : ℕ) → Reply
  identity : AdministratorIdentity → Reply
