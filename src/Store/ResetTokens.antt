-- ===== src/Store/ResetTokens.antt =====
-- src/users_api/infrastructure/database/password_reset_token_repository.py
use udesa_x_users_api.Common.{
  ℕ, Bool, not, ◌&&◌, ◌||◌, Option, none, some, [], ◌∷◌, ◌++◌, Text, ◌==◌, nat_eq, text_eq, is_some,
  any, find?, map_where,
}
use udesa_x_users_api.Model.Token.{PasswordResetToken}
use udesa_x_users_api.Model.Problem.{integrity_error}
use udesa_x_users_api.Platform.{Platform}
use udesa_x_users_api.World.Exec.{Action, None, gets, raise_if, on_db, draw, ◌>>=◌, ◌>>◌}

abbrev pub has_hash : Text → PasswordResetToken → Bool
has_hash token_hash row = row.token_hash == token_hash

-- The links of an account that nobody has used.
abbrev pub is_open_link : ℕ → PasswordResetToken → Bool
is_open_link user_id row = row.user_id == user_id && not (is_some row.used_at)

abbrev pub close_link : ℕ → PasswordResetToken → PasswordResetToken
close_link used_at row = record row { used_at = some used_at }

module _ ⦃p : Platform⦄ where
  unfoldable pub add : ℕ → Text → ℕ → Action None
  add user_id token_hash expires_at = do
    n ← draw
    rows ← gets (λ w. w.db.reset_tokens)
    let row : PasswordResetToken = record {
      id = p.uuid4 n;
      user_id = user_id;
      token_hash = token_hash;
      expires_at = expires_at;
      used_at = none;
    }
    raise_if (any (λ r. r.id == row.id || has_hash token_hash r) rows) integrity_error
    on_db (λ db. record db { reset_tokens = db.reset_tokens ++ row ∷ [] })

  unfoldable pub find_by_hash : Text → Action (Option PasswordResetToken)
  find_by_hash token_hash = gets (λ w. find? (has_hash token_hash) w.db.reset_tokens)

  unfoldable pub mark_all_used : ℕ → ℕ → Action None
  mark_all_used user_id used_at = on_db λ db. record db {
    reset_tokens = map_where (is_open_link user_id) (close_link used_at) db.reset_tokens;
  }
