-- ===== src/Service/Feedback.antt =====
-- src/users_api/app/services/feedback.py
use udesa_x_users_api.Common.{ℕ, ◌*◌, ◌++◌, some, Text, codes, ltb}
use udesa_x_users_api.Text.Uuid.{str_uuid}
use udesa_x_users_api.Model.Account.{User}
use udesa_x_users_api.Model.Event.{Feedback, feedback_submitted}
use udesa_x_users_api.Model.Problem.{Problem, problem, says_two}
use udesa_x_users_api.Platform.{Platform}
use udesa_x_users_api.World.Exec.{Action, None, pure, raise_if, utc_now, draw, ◌>>=◌, ◌>>◌}
use udesa_x_users_api.Store.Records.{build_event, add_event, add_feedback}
use udesa_x_users_api.Cache.RateLimiter

abbrev pub max_messages : ℕ
max_messages = 2

abbrev pub window_minutes : ℕ
window_minutes = 60

unfoldable pub feedback_limit_key : ℕ → Text
feedback_limit_key user_id = codes "feedback:sent:" ++ str_uuid user_id

abbrev pub too_many_feedback_messages : Problem
too_many_feedback_messages = record {
  http_status = 429;
  code = "too-many-feedback-messages";
  title = "Demasiados mensajes";
  detail = says_two "Ya enviaste " max_messages " mensajes. Esperá " window_minutes " minutos";
  retry_after = some (window_minutes * 60);
}

module _ ⦃p : Platform⦄ where
  unfoldable pub guard_limit : User → Action None
  guard_limit user = do
    sent ← RateLimiter.hit (feedback_limit_key user.id) (window_minutes * 60)
    raise_if (ltb max_messages sent) (problem too_many_feedback_messages)

  unfoldable pub submit : User → Text → Text → Text → Action Feedback
  unfolding guard_limit
  submit user message device_os app_version = do
    guard_limit user
    n ← draw
    at ← utc_now
    let feedback : Feedback = record {
      id = p.uuid4 n;
      user_id = user.id;
      handle = user.handle;
      message = message;
      device_os = device_os;
      app_version = app_version;
      created_at = at;
    }
    add_feedback feedback
    event ← build_event (feedback_submitted feedback) feedback.created_at
    add_event event
    pure feedback
