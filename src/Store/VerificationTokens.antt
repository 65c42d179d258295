-- ===== src/Store/VerificationTokens.antt =====
-- src/users_api/infrastructure/database/email_verification_token_repository.py
use udesa_x_users_api.Common.{
  ℕ, Bool, ◌||◌, Option, none, some, [], ◌∷◌, ◌++◌, Text, ◌==◌, nat_eq, text_eq, any, find?,
  map_where,
}
use udesa_x_users_api.Model.Token.{EmailVerificationToken}
use udesa_x_users_api.Model.Problem.{integrity_error}
use udesa_x_users_api.Platform.{Platform}
use udesa_x_users_api.World.Exec.{Action, None, gets, raise_if, on_db, draw, ◌>>=◌, ◌>>◌}

abbrev pub has_hash : Text → EmailVerificationToken → Bool
has_hash token_hash row = row.token_hash == token_hash

abbrev pub has_id : ℕ → EmailVerificationToken → Bool
has_id id row = row.id == id

abbrev pub mark_row : ℕ → EmailVerificationToken → EmailVerificationToken
mark_row used_at row = record row { used_at = some used_at }

module _ ⦃p : Platform⦄ where
  unfoldable pub add : ℕ → Text → ℕ → Action None
  add user_id token_hash expires_at = do
    n ← draw
    rows ← gets (λ w. w.db.verification_tokens)
    let row : EmailVerificationToken = record {
      id = p.uuid4 n;
      user_id = user_id;
      token_hash = token_hash;
      expires_at = expires_at;
      used_at = none;
    }
    raise_if (any (λ r. has_id row.id r || has_hash token_hash r) rows) integrity_error
    on_db (λ db. record db { verification_tokens = db.verification_tokens ++ row ∷ [] })

  unfoldable pub find_by_hash : Text → Action (Option EmailVerificationToken)
  find_by_hash token_hash = gets (λ w. find? (has_hash token_hash) w.db.verification_tokens)

  unfoldable pub mark_used : ℕ → ℕ → Action None
  mark_used token_id used_at = on_db λ db. record db {
    verification_tokens = map_where (has_id token_id) (mark_row used_at) db.verification_tokens;
  }
