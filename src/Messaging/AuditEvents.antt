-- ===== src/Messaging/AuditEvents.antt =====
-- src/users_api/app/audit_events.py: the one event that the service consumes.
use udesa_x_users_api.Common.{
  ℕ, Bool, ◌&&◌, Option, none, some, ◌>>=◌, Text, codes, ◌==◌, text_eq, leb, if◌then◌else◌,
}
use udesa_x_users_api.Model.Event.{
  AuditEntry, AuditAction, report_dismissed, report_resolved, details_reports_count,
}

-- A message of the shape of `AuditEvent`: its ids, its time and its count are read, and its texts are
-- as they came.
pub record AuditMessage : Type 0 where
  pub specversion : Text
  pub id : ℕ
  pub source : Text
  pub event_type : Text
  pub time : ℕ
  pub actor_id : ℕ
  pub actor_email : Text
  pub action : Text
  pub target_type : Text
  pub target_id : ℕ
  pub reports_count : ℕ

abbrev pub admin_action_recorded : Text
admin_action_recorded = codes "admin.action_recorded.v1"

abbrev pub action_of : Text → Option AuditAction
action_of action =
    if action == codes "report.dismissed"
    then some report_dismissed
    else if action == codes "report.resolved"
    then some report_resolved
    else none

-- The fields that are literals, and the count, which starts at one.
abbrev pub is_expected : AuditMessage → Bool
is_expected m =
    m.specversion == codes "1.0"
    && m.source == codes "posts-api"
    && m.event_type == admin_action_recorded
    && m.target_type == codes "user"
    && leb 1 m.reports_count

-- `model_validate_json` and `entry`, once the body has the shape. `email_str` is the rule of EmailStr.
unfoldable pub entry_of : (Text → Option Text) → AuditMessage → Option AuditEntry
entry_of email_str m = action_of m.action >>= λ action. email_str m.actor_email >>= λ email.
    if is_expected m
    then some (record {
      id = m.id;
      occurred_at = m.time;
      actor_id = m.actor_id;
      actor_email = email;
      action = action;
      target_id = m.target_id;
      details = details_reports_count m.reports_count;
    })
    else none
