-- ===== src/Service/PasswordReset/Consequences.antt =====
-- What a recovered password closes, and what it leaves as it was.
use udesa_x_users_api.Common.{
  ℕ, suc, ◌+◌, ◌*◌, ◌/◌, ◌<◌, ◌≡◌, ◌⊎◌, inl, inr, true, false, Option, none, some, any, find?, List,
  map_where, any-map_where_self, Text, ==_refl, text_eq, nat_eq, arith,
}
use udesa_x_users_api.Config.{Settings}
use udesa_x_users_api.Model.Account.{User}
use udesa_x_users_api.Model.Token.{PasswordResetToken, reset_is_usable}
use udesa_x_users_api.Model.Problem.{problem}
use udesa_x_users_api.Platform.{Platform, second}
use udesa_x_users_api.World.State.{World}
use udesa_x_users_api.World.Exec.{ok, err}
use udesa_x_users_api.Store.Users
use udesa_x_users_api.Store.Users.{has_id, overwrite}
use udesa_x_users_api.Store.ResetTokens
use udesa_x_users_api.Store.ResetTokens.{is_open_link, close_link}
use udesa_x_users_api.Store.RefreshTokens
use udesa_x_users_api.Store.RefreshTokens.{is_open_of, mark_revoked}
use udesa_x_users_api.Store.RefreshTokens.Laws.{any-is_open_of}
use udesa_x_users_api.Cache.Sessions.{revoked_sessions_key}
use udesa_x_users_api.Cache.Sessions.Laws.{entry-revoke_all, result-revoke_all, db-revoke_all}
use udesa_x_users_api.Security.{hash_token, hash_password, verify_password}
use udesa_x_users_api.Security.Passwords.{verify_password-hash}
use udesa_x_users_api.Service.Auth.Login.{session_seconds}
use udesa_x_users_api.Service.PasswordReset.{
  reset_token_invalid, with_password, replace_password, reset_found, reset_password,
}

any-is_open_link :
    (user_id at : ℕ) (rows : List PasswordResetToken)
    → any (is_open_link user_id) (map_where (is_open_link user_id) (close_link at) rows) ≡ false
any-is_open_link user_id at rows =
    any-map_where_self (is_open_link user_id) (close_link at) rows (λ r. ground arith)

module _ ⦃p : Platform⦄ (settings : Settings) (raw_token new_password : Text) (w : World) where
  abbrev pub link : Option PasswordResetToken
  link = find? (ResetTokens.has_hash (hash_token raw_token)) w.db.reset_tokens

  abbrev pub replaced : User → User
  replaced user = with_password user (p.argon2_hash w.drawn new_password)

  replaces :
      (t : PasswordResetToken) (user : User)
      → link ≡ some t
      → reset_is_usable t w.clock ≡ true
      → find? (has_id t.user_id) w.db.users ≡ some user
      → verify_password new_password (some user.password_hash) ≡ false
      → reset_password settings raw_token new_password w
        ≡ replace_password settings user new_password w.clock w
  unfolding reset_password reset_found ResetTokens.find_by_hash Users.get
  replaces t user found usable owner changed = ground (arith, found, usable, owner)

  -- Where the cutoff is written.
  abbrev before : User → World
  before user = record w {
    db = record w.db {
      users = map_where (has_id user.id) (overwrite (replaced user)) w.db.users;
      reset_tokens = map_where (is_open_link user.id) (close_link w.clock) w.db.reset_tokens;
    };
    drawn = suc w.drawn;
  }

  carried_out :
      (user : User)
      → 0 < session_seconds settings
      → verify_password new_password (some user.password_hash) ≡ false
      → let (r, w') = replace_password settings user new_password w.clock w in
        (r ≡ ok (replaced user))
        × (w'.db.users ≡ map_where (has_id user.id) (overwrite (replaced user)) w.db.users)
        × (verify_password new_password (some (replaced user).password_hash) ≡ true)
        × (any (is_open_link user.id) w'.db.reset_tokens ≡ false)
        × (any (is_open_of user.id) w'.db.refresh_tokens ≡ false)
        × (p.entry w'.redis (revoked_sessions_key user.id)
            ≡ some (record {
              value = w.clock / second;
              deadline = some (w.clock + session_seconds settings * second);
            }))
  unfolding replace_password hash_password Users.update ResetTokens.mark_all_used
      RefreshTokens.revoke_all
  carried_out user lasting changed = ground (
    arith,
    changed,
    verify_password-hash w.drawn new_password,
    any-is_open_link user.id w.clock w.db.reset_tokens,
    any-is_open_of user.id w.clock w.db.refresh_tokens,
    result-revoke_all user.id w.clock (session_seconds settings) (before user) lasting,
    db-revoke_all user.id w.clock (session_seconds settings) (before user),
    entry-revoke_all user.id w.clock (session_seconds settings) (before user)
        (revoked_sessions_key user.id) lasting,
    ==_refl (revoked_sessions_key user.id),
  )

  -- A usable link with a new password: the operation ends well, and the stored account gets a hash that
  -- verifies the new password, with all else of it and every other account as before; no link of the
  -- account is left open, no refresh token either, and the cutoff of its access tokens is the present
  -- second.
  pub reset_password-replaces :
      (t : PasswordResetToken) (user : User)
      → 0 < session_seconds settings
      → link ≡ some t
      → reset_is_usable t w.clock ≡ true
      → find? (has_id t.user_id) w.db.users ≡ some user
      → verify_password new_password (some user.password_hash) ≡ false
      → let (r, w') = reset_password settings raw_token new_password w in
        (r ≡ ok (replaced user))
        × (w'.db.users ≡ map_where (has_id user.id) (overwrite (replaced user)) w.db.users)
        × (verify_password new_password (some (replaced user).password_hash) ≡ true)
        × (any (is_open_link user.id) w'.db.reset_tokens ≡ false)
        × (any (is_open_of user.id) w'.db.refresh_tokens ≡ false)
        × (p.entry w'.redis (revoked_sessions_key user.id)
            ≡ some (record {
              value = w.clock / second;
              deadline = some (w.clock + session_seconds settings * second);
            }))
  reset_password-replaces t user lasting found usable owner changed =
      rw (replaces t user found usable owner changed) (carried_out user lasting changed)

  -- A link that is unknown, used or expired changes nothing.
  pub reset_password-refuses :
      (link ≡ none)
        ⊎ ((t : PasswordResetToken) × (link ≡ some t) × (reset_is_usable t w.clock ≡ false))
      → reset_password settings raw_token new_password w ≡ (err (problem reset_token_invalid), w)
  unfolding reset_password reset_found ResetTokens.find_by_hash
  reset_password-refuses (inl unknown) = ground (arith, unknown)
  reset_password-refuses (inr (t, found, unusable)) = ground (arith, found, unusable)
