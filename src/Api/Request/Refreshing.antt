-- ===== src/Api/Request/Refreshing.antt =====
-- Refreshing a session through its route: reuse, refusals and rotation.
use udesa_x_users_api.Common.{
  map_where, ◌+◌, ◌*◌, ◌/◌, ◌<◌, ◌≡◌, Bool, true, false, Option, none, some, any, find?, Text,
  ==_refl, text_eq, arith,
}
use udesa_x_users_api.Config.{Settings}
use udesa_x_users_api.Model.Token.{RefreshToken}
use udesa_x_users_api.Platform.{Platform, second}
use udesa_x_users_api.World.State.{World}
use udesa_x_users_api.Store.RefreshTokens.{
  mark_revoked, has_hash, is_open_of, find_by_hash, revoke_all,
}
use udesa_x_users_api.Store.RefreshTokens.Laws.{
  HashesApart, usable_at, find?-is_consumable, consume-none, any-is_open_of,
}
use udesa_x_users_api.Cache.Sessions.{revoked_sessions_key}
use udesa_x_users_api.Cache.Sessions.Laws.{entry-revoke_all, result-revoke_all, db-revoke_all}
use udesa_x_users_api.Security.{hash_token}
use udesa_x_users_api.Service.Auth.Login.{session_seconds}
use udesa_x_users_api.Service.Auth.Refresh.{
  invalid_refresh_token, is_reuse, refuse_found, refuse_refresh_token, refresh,
}
use udesa_x_users_api.Api.Request.{refused, refresh_route}

abbrev pub is_reuse_of : Option RefreshToken → Bool
is_reuse_of none = false
is_reuse_of (some t) = is_reuse t

module _ ⦃p : Platform⦄ (settings : Settings) (raw_token : Text) (w : World) where
  -- A token that cannot be exchanged goes to `refuse_refresh_token` with nothing changed.
  refresh-refuses :
      HashesApart w.db.refresh_tokens
      → usable_at w.clock (find? (has_hash (hash_token raw_token)) w.db.refresh_tokens) ≡ none
      → refresh settings raw_token w
        ≡ refuse_found settings
            (find? (has_hash (hash_token raw_token)) w.db.refresh_tokens)
            w.clock
            w
  unfolding refresh refuse_refresh_token find_by_hash
  refresh-refuses apart unusable = ground (
    arith,
    find?-is_consumable (hash_token raw_token) w.clock w.db.refresh_tokens apart,
    consume-none (hash_token raw_token) w.clock w,
  )

  -- Presenting a token that was used, and whose family was not revoked, signs the account out: the
  -- answer is the one of any refused token, and it is committed that no refresh token of the account is
  -- left open and that its cutoff is the present second.
  pub reuse-signs_out :
      (t : RefreshToken)
      → 0 < session_seconds settings
      → HashesApart w.db.refresh_tokens
      → find? (has_hash (hash_token raw_token)) w.db.refresh_tokens ≡ some t
      → is_reuse t ≡ true
      → let (answer, w') = refresh_route settings raw_token w in
        (answer ≡ refused invalid_refresh_token)
        × (any (is_open_of t.user_id) w'.db.refresh_tokens ≡ false)
        × (p.entry w'.redis (revoked_sessions_key t.user_id)
            ≡ some (record {
              value = w.clock / second;
              deadline = some (w.clock + session_seconds settings * second);
            }))
  unfolding refresh_route refuse_found revoke_all
  reuse-signs_out t lasting apart found reuse =
      let at : World = record w {
        db = record w.db {
          refresh_tokens =
              map_where (is_open_of t.user_id) (mark_revoked w.clock) w.db.refresh_tokens;
        };
      } in
      ground (
        arith,
        refresh-refuses apart,
        any-is_open_of t.user_id w.clock w.db.refresh_tokens,
        result-revoke_all t.user_id w.clock (session_seconds settings) at lasting,
        db-revoke_all t.user_id w.clock (session_seconds settings) at,
        entry-revoke_all t.user_id w.clock (session_seconds settings) at
            (revoked_sessions_key t.user_id) lasting,
        ==_refl (revoked_sessions_key t.user_id),
      )

  -- Every other token that cannot be exchanged, unknown, expired or revoked, gets the same answer, and
  -- the database keeps every row.
  pub unusable-refused :
      HashesApart w.db.refresh_tokens
      → usable_at w.clock (find? (has_hash (hash_token raw_token)) w.db.refresh_tokens) ≡ none
      → is_reuse_of (find? (has_hash (hash_token raw_token)) w.db.refresh_tokens) ≡ false
      → refresh_route settings raw_token w ≡ (refused invalid_refresh_token, w)
  unfolding refresh_route refuse_found
  unusable-refused apart unusable fresh = ground (arith, refresh-refuses apart unusable)
