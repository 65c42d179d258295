-- ===== src/Store/RefreshTokens.antt =====
-- src/users_api/infrastructure/database/refresh_token_repository.py
pub mod Laws
pub mod Once
pub mod Spared
pub mod Book
pub mod Refinement
use mathlib.Core.Option
use udesa_x_users_api.Common.{
  ℕ, Bool, not, ◌&&◌, ◌||◌, Option, none, some, [], ◌∷◌, ◌++◌, Text, ◌==◌, nat_eq, text_eq, ltb,
  is_some, any, find?, map_where,
}
use udesa_x_users_api.Model.Token.{RefreshToken}
use udesa_x_users_api.Model.Problem.{integrity_error}
use udesa_x_users_api.Platform.{Platform}
use udesa_x_users_api.World.Exec.{Action, None, pure, gets, raise_if, on_db, draw, ◌>>=◌, ◌>>◌}

abbrev pub has_hash : Text → RefreshToken → Bool
has_hash token_hash row = row.token_hash == token_hash

-- The condition of the UPDATE in `consume`.
abbrev pub is_consumable : Text → ℕ → RefreshToken → Bool
is_consumable token_hash now row =
    has_hash token_hash row
    && not (is_some row.used_at)
    && not (is_some row.revoked_at)
    && ltb now row.expires_at

abbrev pub mark_used : ℕ → RefreshToken → RefreshToken
mark_used used_at row = record row { used_at = some used_at }

abbrev pub mark_revoked : ℕ → RefreshToken → RefreshToken
mark_revoked revoked_at row = record row { revoked_at = some revoked_at }

abbrev pub in_open_family : ℕ → RefreshToken → Bool
in_open_family family_id row = row.family_id == family_id && not (is_some row.revoked_at)

abbrev pub is_open_of : ℕ → RefreshToken → Bool
is_open_of user_id row = row.user_id == user_id && not (is_some row.revoked_at)

-- The unique columns of `refresh_tokens`.
abbrev pub clashes : RefreshToken → RefreshToken → Bool
clashes new row = row.id == new.id || has_hash new.token_hash row

-- The row that `add` builds: not used and not revoked.
abbrev pub new_token : ℕ → ℕ → ℕ → Text → ℕ → RefreshToken
new_token id user_id family_id token_hash expires_at = record {
  id = id;
  user_id = user_id;
  family_id = family_id;
  token_hash = token_hash;
  expires_at = expires_at;
  used_at = none;
  revoked_at = none;
}

module _ ⦃p : Platform⦄ where
  unfoldable pub add : ℕ → ℕ → Text → ℕ → Action None
  add user_id family_id token_hash expires_at = do
    n ← draw
    rows ← gets (λ w. w.db.refresh_tokens)
    let row = new_token (p.uuid4 n) user_id family_id token_hash expires_at
    raise_if (any (clashes row) rows) integrity_error
    on_db (λ db. record db { refresh_tokens = db.refresh_tokens ++ row ∷ [] })

  unfoldable pub find_by_hash : Text → Action (Option RefreshToken)
  find_by_hash token_hash = gets (λ w. find? (has_hash token_hash) w.db.refresh_tokens)

  -- One UPDATE ... RETURNING: the row comes back as it was written.
  unfoldable pub consume : Text → ℕ → Action (Option RefreshToken)
  consume token_hash now = do
    row ← gets (λ w. find? (is_consumable token_hash now) w.db.refresh_tokens)
    on_db λ db. record db {
      refresh_tokens = map_where (is_consumable token_hash now) (mark_used now) db.refresh_tokens;
    }
    pure (Option.map (mark_used now) row)

  unfoldable pub revoke_family : ℕ → ℕ → Action None
  revoke_family family_id revoked_at = on_db λ db. record db {
    refresh_tokens =
        map_where (in_open_family family_id) (mark_revoked revoked_at) db.refresh_tokens;
  }

  unfoldable pub revoke_all : ℕ → ℕ → Action None
  revoke_all user_id revoked_at = on_db λ db. record db {
    refresh_tokens = map_where (is_open_of user_id) (mark_revoked revoked_at) db.refresh_tokens;
  }
