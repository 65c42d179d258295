-- ===== src/Service/Audit.antt =====
-- src/users_api/app/services/audit.py
use udesa_x_users_api.Common.{ℕ, not, ◌||◌, none}
use udesa_x_users_api.Model.Account.{User, is_administrator, is_deleted}
use udesa_x_users_api.Model.Event.{AuditAction, AuditDetails}
use udesa_x_users_api.Model.Problem.{Problem, problem, says}
use udesa_x_users_api.Platform.{Platform}
use udesa_x_users_api.World.Exec.{
  Action, None, pure, or_raise, raise_if, utc_now, draw, ◌>>=◌, ◌>>◌,
}
use udesa_x_users_api.Store.Users
use udesa_x_users_api.Store.Records.{add_entry}

abbrev pub administrator_not_found : Problem
administrator_not_found = record {
  http_status = 404;
  code = "administrator-not-found";
  title = "No se encontró al administrador";
  detail = says "La cuenta no existe";
  retry_after = none;
}

module _ ⦃p : Platform⦄ where
  unfoldable pub administrator : ℕ → Action User
  administrator actor_id = do
    found ← Users.get actor_id
    actor ← or_raise found (problem administrator_not_found)
    raise_if (not (is_administrator actor) || is_deleted actor) (problem administrator_not_found)
    pure actor

  -- The target is always an account.
  unfoldable pub record_action : ℕ → AuditAction → ℕ → AuditDetails → Action None
  unfolding administrator
  record_action actor_id action target_id details = do
    actor ← administrator actor_id
    n ← draw
    at ← utc_now
    add_entry (record {
      id = p.uuid4 n;
      occurred_at = at;
      actor_id = actor.id;
      actor_email = actor.email;
      action = action;
      target_id = target_id;
      details = details;
    })
