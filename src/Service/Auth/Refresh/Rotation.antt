-- ===== src/Service/Auth/Refresh/Rotation.antt =====
-- A refresh that succeeds: what it needs, what it hands out and what it writes.
use udesa_x_users_api.Common.{
  suc, ◌+◌, ◌*◌, ◌≡◌, true, false, some, [], ◌∷◌, ◌++◌, any, find?, map_where, Text, text_eq, arith,
}
use udesa_x_users_api.Config.{Settings}
use udesa_x_users_api.Model.Account.{User, can_log_in, temporary_password_expired}
use udesa_x_users_api.Model.Token.{RefreshToken}
use udesa_x_users_api.Platform.{Platform, second}
use udesa_x_users_api.World.State.{World}
use udesa_x_users_api.World.Exec.{ok}
use udesa_x_users_api.Store.Users.{has_id, get}
use udesa_x_users_api.Store.RefreshTokens.{
  has_hash, is_consumable, mark_used, clashes, new_token, add, consume,
}
use udesa_x_users_api.Store.RefreshTokens.Laws.{HashesApart, usable_at, find?-is_consumable}
use udesa_x_users_api.Security.{hash_token, generate_refresh_token, issue_access_token}
use udesa_x_users_api.Service.Auth.Blocked.{deny_blocked_account, deny_expired_temporary_password}
use udesa_x_users_api.Service.Auth.Login.{
  IssuedSession, claims_for, issue_session, session_seconds, issue_refresh_token,
}
use udesa_x_users_api.Service.Auth.Refresh.{renew, refresh}

module _ ⦃p : Platform⦄ (settings : Settings) (raw_token : Text) (w : World) where
  -- The next token of a family, with the three values drawn for the session.
  abbrev pub next_token : RefreshToken → RefreshToken
  next_token t =
      new_token (p.uuid4 (suc (suc w.drawn))) t.user_id t.family_id
        (hash_token (p.token_urlsafe 32 (suc w.drawn)))
        (w.clock + settings.refresh_token_days * 86400 * second)

  abbrev pub next_session : User → IssuedSession
  next_session user = record {
    access_token = p.jwt_encode (claims_for settings user w);
    refresh_token = p.token_urlsafe 32 (suc w.drawn);
    expires_in = session_seconds settings;
  }

  abbrev hash : Text
  hash = hash_token raw_token

  abbrev pub rotated : RefreshToken → World
  rotated t = record w {
    db = record w.db {
      refresh_tokens =
          map_where (is_consumable hash w.clock) (mark_used w.clock) w.db.refresh_tokens
          ++ next_token t ∷ [];
    };
    drawn = suc (suc (suc w.drawn));
  }

  -- A usable token of an account that may log in is exchanged: it is marked used, the next token of
  -- the same family is stored under its digest, and the session carries that token and an access token
  -- for the account. This needs the new token to repeat no id and no digest.
  pub refresh-rotates :
      (t : RefreshToken) (user : User)
      → HashesApart w.db.refresh_tokens
      → usable_at w.clock (find? (has_hash hash) w.db.refresh_tokens) ≡ some t
      → find? (has_id t.user_id) w.db.users ≡ some user
      → user.id ≡ t.user_id
      → can_log_in user ≡ true
      → temporary_password_expired user w.clock ≡ false
      → any
          (clashes (next_token t))
          (map_where (is_consumable hash w.clock) (mark_used w.clock) w.db.refresh_tokens)
        ≡ false
      → refresh settings raw_token w ≡ (ok (next_session user), rotated t)
  unfolding refresh renew consume get issue_session issue_access_token issue_refresh_token add
      generate_refresh_token deny_blocked_account deny_expired_temporary_password can_log_in
      temporary_password_expired
  refresh-rotates t user apart usable owner same allowed current free =
      ground (arith, find?-is_consumable hash w.clock w.db.refresh_tokens apart)
