-- ===== src/Service/Metrics.antt =====
-- src/users_api/app/services/metrics.py
use udesa_x_users_api.Common.{ℕ}
use udesa_x_users_api.Model.Account.{active, under_review}
use udesa_x_users_api.Platform.{Platform}
use udesa_x_users_api.World.Exec.{Action, pure, ◌>>=◌}
use udesa_x_users_api.Store.Users

pub record AccountMetrics : Type 0 where
  pub active_users : ℕ
  pub accounts_under_review : ℕ

module _ ⦃p : Platform⦄ where
  unfoldable pub account_metrics : Action AccountMetrics
  account_metrics = do
    actives ← Users.count_users active
    reviewed ← Users.count_users under_review
    pure (record { active_users = actives; accounts_under_review = reviewed })
