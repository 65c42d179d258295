-- ===== src/Model/Event.antt =====
-- src/users_api/app/models/{feedback,audit}.py, and the events of src/users_api/app/events.py with
-- the payloads that `contracts/events` fixes. An envelope's `specversion` and `source` are constant.
use udesa_x_users_api.Common.{ℕ, Text}
use udesa_x_users_api.Model.Account.{User, FeedLanguage}

pub record Feedback : Type 0 where
  pub id : ℕ
  pub user_id : ℕ
  pub handle : Text
  pub message : Text
  pub device_os : Text
  pub app_version : Text
  pub created_at : ℕ

pub data AuditAction : Type 0 where
  admin_created temporary_password_reset user_blocked report_dismissed report_resolved : AuditAction

-- The details that each action records.
pub data AuditDetails : Type 0 where
  no_details : AuditDetails
  details_email details_reason : Text → AuditDetails
  details_reports_count : ℕ → AuditDetails

-- `target_type` is always "user".
pub record AuditEntry : Type 0 where
  pub id : ℕ
  pub occurred_at : ℕ
  pub actor_id : ℕ
  pub actor_email : Text
  pub action : AuditAction
  pub target_id : ℕ
  pub details : AuditDetails

-- The type of an event with its `data`.
pub data Payload : Type 0 where
  user_registered_v1 : (user_id : ℕ) (email handle verification_url : Text) → Payload
  email_verification_requested_v1 : (user_id : ℕ) (email verification_url : Text) → Payload
  password_reset_requested_v1 : (user_id : ℕ) (email token : Text) → Payload
  password_changed_v1 : (user_id : ℕ) (email : Text) → Payload
  user_deleted_v1 : (user_id : ℕ) → Payload
  preferences_changed_v1 : (user_id : ℕ) (feed_language : FeedLanguage) → Payload
  feedback_submitted_v1 :
      (feedback_id user_id : ℕ) (handle message device_os app_version : Text) → Payload

-- The time of an event is in milliseconds.
pub record Event : Type 0 where
  pub id : ℕ
  pub time : ℕ
  pub payload : Payload

-- A row of `outbox`.
pub record OutboxRow : Type 0 where
  pub event : Event
  pub created_at : ℕ

unfoldable pub user_registered : User → Text → Payload
user_registered u url = user_registered_v1 u.id u.email u.handle url

unfoldable pub email_verification_requested : User → Text → Payload
email_verification_requested u url = email_verification_requested_v1 u.id u.email url

unfoldable pub password_reset_requested : User → Text → Payload
password_reset_requested u token = password_reset_requested_v1 u.id u.email token

unfoldable pub password_changed : User → Payload
password_changed u = password_changed_v1 u.id u.email

unfoldable pub user_deleted : User → Payload
user_deleted u = user_deleted_v1 u.id

unfoldable pub preferences_changed : User → Payload
preferences_changed u = preferences_changed_v1 u.id u.feed_language

unfoldable pub feedback_submitted : Feedback → Payload
feedback_submitted f =
    feedback_submitted_v1 f.id f.user_id f.handle f.message f.device_os f.app_version
