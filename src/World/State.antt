-- ===== src/World/State.antt =====
-- The state that a request works on.
use udesa_x_users_api.Common.{ℕ, List}
use udesa_x_users_api.Platform.{Platform}
use udesa_x_users_api.Model.Account.{User}
use udesa_x_users_api.Model.Token.{EmailVerificationToken, PasswordResetToken, RefreshToken}
use udesa_x_users_api.Model.Event.{Feedback, AuditEntry, OutboxRow}

-- The tables, each in the order of insertion.
pub record Database : Type 0 where
  pub users : List User
  pub verification_tokens : List EmailVerificationToken
  pub reset_tokens : List PasswordResetToken
  pub refresh_tokens : List RefreshToken
  pub outbox : List OutboxRow
  pub feedback : List Feedback
  pub audit_log : List AuditEntry

module _ ⦃p : Platform⦄ where
  pub record World : Type 0 where
    pub db : Database
    pub redis : p.Keyspace
    pub clock : ℕ
    pub drawn : ℕ
