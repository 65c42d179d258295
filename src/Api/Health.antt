-- ===== src/Api/Health.antt =====
-- `build_report` of src/users_api/infrastructure/health.py.
use udesa_x_users_api.Common.{ℕ, Bool, Option, some, List, map, String, all, if◌then◌else◌}

pub record DependencyStatus : Type 0 where
  pub name : String
  pub is_healthy : Bool
  pub detail : Option String

pub record Report : Type 0 where
  pub status : String
  pub dependencies : List (String × Option String)
  pub http_status : ℕ

abbrev pub is_up : DependencyStatus → Bool
is_up s = s.is_healthy

abbrev pub described : DependencyStatus → String × Option String
described s = (s.name, if s.is_healthy then some "ok" else s.detail)

unfoldable pub build_report : List DependencyStatus → Report
build_report statuses = record {
  status = if all is_up statuses then "ok" else "degraded";
  dependencies = map described statuses;
  http_status = if all is_up statuses then 200 else 503;
}
