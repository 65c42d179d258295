-- ===== src/Model/Token.antt =====
-- src/users_api/app/models/tokens.py: the single use tokens.
use udesa_x_users_api.Common.{ℕ, Bool, not, ◌&&◌, Option, ltb, is_some, Text}

pub record EmailVerificationToken : Type 0 where
  pub id : ℕ
  pub user_id : ℕ
  pub token_hash : Text
  pub expires_at : ℕ
  pub used_at : Option ℕ

pub record PasswordResetToken : Type 0 where
  pub id : ℕ
  pub user_id : ℕ
  pub token_hash : Text
  pub expires_at : ℕ
  pub used_at : Option ℕ

pub record RefreshToken : Type 0 where
  pub id : ℕ
  pub user_id : ℕ
  pub family_id : ℕ
  pub token_hash : Text
  pub expires_at : ℕ
  pub used_at : Option ℕ
  pub revoked_at : Option ℕ

-- `EmailVerificationToken.is_usable`
unfoldable pub link_is_usable : EmailVerificationToken → ℕ → Bool
link_is_usable t now = not (is_some t.used_at) && ltb now t.expires_at

-- `PasswordResetToken.is_usable`
unfoldable pub reset_is_usable : PasswordResetToken → ℕ → Bool
reset_is_usable t now = not (is_some t.used_at) && ltb now t.expires_at
