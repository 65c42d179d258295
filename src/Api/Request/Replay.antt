-- ===== src/Api/Request/Replay.antt =====
-- A refresh token that was exchanged and is presented again.
use udesa_x_users_api.Common.{
  ◌+◌, ◌*◌, ◌/◌, ◌<◌, ◌≡◌, refl, ap, ◌∙◌, All, List, true, false, some, [], ◌∷◌, any, find?,
  find?-append, find?-eq_some, map_where, Text, arith,
}
use udesa_x_users_api.Config.{Settings}
use udesa_x_users_api.Model.Account.{User, can_log_in, temporary_password_expired}
use udesa_x_users_api.Model.Token.{RefreshToken}
use udesa_x_users_api.Platform.{Platform, second}
use udesa_x_users_api.World.State.{World}
use udesa_x_users_api.Store.Users.{has_id}
use udesa_x_users_api.Store.RefreshTokens.{has_hash, is_consumable, mark_used, clashes, is_open_of}
use udesa_x_users_api.Store.RefreshTokens.Laws.{
  HashesApart, HashesApart-append, HashesApart-use, usable_at, find?-use,
}
use udesa_x_users_api.Store.RefreshTokens.Once.{Block, run_all, run_all-HashesApart}
use udesa_x_users_api.Store.RefreshTokens.Spared.{Spares, run_all-Found}
use udesa_x_users_api.Cache.Sessions.{revoked_sessions_key}
use udesa_x_users_api.Security.{hash_token}
use udesa_x_users_api.Service.Auth.Login.{session_seconds}
use udesa_x_users_api.Service.Auth.Refresh.{invalid_refresh_token, is_reuse, refresh}
use udesa_x_users_api.Service.Auth.Refresh.Rotation.{next_token, rotated, refresh-rotates}
use udesa_x_users_api.Api.Request.{refused, refresh_route}
use udesa_x_users_api.Api.Request.Refreshing.{reuse-signs_out}

module _ ⦃p : Platform⦄ (settings : Settings) (raw_token : Text) (w : World) where
  -- The token that was exchanged stays in the table, marked used.
  found_used :
      (t : RefreshToken)
      → usable_at w.clock (find? (has_hash (hash_token raw_token)) w.db.refresh_tokens) ≡ some t
      → find? (has_hash (hash_token raw_token)) (rotated settings raw_token w t).db.refresh_tokens
        ≡ some (mark_used w.clock t)
  found_used t usable =
      let h = hash_token raw_token in
      let q = is_consumable h w.clock in
      ground (
        arith,
        find?-append (has_hash h) (map_where q (mark_used w.clock) w.db.refresh_tokens)
            (next_token settings raw_token w t ∷ []),
        find?-use h q w.clock w.db.refresh_tokens,
        find?-eq_some (has_hash h) w.db.refresh_tokens t,
      )

  used_is_reuse :
      (t : RefreshToken)
      → usable_at w.clock (find? (has_hash (hash_token raw_token)) w.db.refresh_tokens) ≡ some t
      → is_reuse (mark_used w.clock t) ≡ true
  used_is_reuse t usable = ground arith

  -- The table after the exchange has no repeated hash either.
  rotated-HashesApart :
      (t : RefreshToken)
      → HashesApart w.db.refresh_tokens
      → any (clashes (next_token settings raw_token w t)) (
          map_where
            (is_consumable (hash_token raw_token) w.clock)
            (mark_used w.clock)
            w.db.refresh_tokens)
        ≡ false
      → HashesApart (rotated settings raw_token w t).db.refresh_tokens
  rotated-HashesApart t apart free = HashesApart-append (next_token settings raw_token w t) _ free (
      HashesApart-use (is_consumable (hash_token raw_token) w.clock) w.clock w.db.refresh_tokens
        apart)

  -- The exchanged token comes back in a world whose table of tokens the blocks have made.
  signs_out_again :
      (t : RefreshToken) (between : List Block) (w' : World)
      → 0 < session_seconds settings
      → usable_at w.clock (find? (has_hash (hash_token raw_token)) w.db.refresh_tokens) ≡ some t
      → HashesApart (rotated settings raw_token w t).db.refresh_tokens
      → All (Spares (mark_used w.clock t)) between
      → w'.db.refresh_tokens ≡ (run_all between (rotated settings raw_token w t)).db.refresh_tokens
      → let (answer, w'') = refresh_route settings raw_token w' in
        (answer ≡ refused invalid_refresh_token)
        × (any (is_open_of t.user_id) w''.db.refresh_tokens ≡ false)
        × (p.entry w''.redis (revoked_sessions_key t.user_id)
            ≡ some (record {
              value = w'.clock / second;
              deadline = some (w'.clock + session_seconds settings * second);
            }))
  signs_out_again t between w' lasting usable apart spared made =
      reuse-signs_out settings raw_token w' (mark_used w.clock t) lasting
        (rw made (run_all-HashesApart between (rotated settings raw_token w t) apart))
        (rw made (
          run_all-Found (hash_token raw_token) (mark_used w.clock t) refl between
            (rotated settings raw_token w t) spared (found_used t usable)))
        (used_is_reuse t usable)

  -- A token that was exchanged for a session and is presented again, at any later time, signs the
  -- account out: the second answer is a refusal, the token that the exchange handed out is revoked with
  -- all others of the account, and the cutoff of its sessions is the second of the second attempt. Between
  -- the two the table of tokens may have seen any statements of any requests, rolled back or not, but
  -- none that takes effect and revokes the family of the token or all tokens of its owner, as a logout or
  -- an earlier detection does. This needs the first exchange to meet the conditions of one that succeeds.
  pub refresh-replay :
      (t : RefreshToken) (user : User) (between : List Block) (w' : World)
      → 0 < session_seconds settings
      → HashesApart w.db.refresh_tokens
      → usable_at w.clock (find? (has_hash (hash_token raw_token)) w.db.refresh_tokens) ≡ some t
      → find? (has_id t.user_id) w.db.users ≡ some user
      → user.id ≡ t.user_id
      → can_log_in user ≡ true
      → temporary_password_expired user w.clock ≡ false
      → any (clashes (next_token settings raw_token w t)) (
          map_where
            (is_consumable (hash_token raw_token) w.clock)
            (mark_used w.clock)
            w.db.refresh_tokens)
        ≡ false
      → All (Spares (mark_used w.clock t)) between
      → w'.db.refresh_tokens ≡ (run_all between (refresh settings raw_token w).1).db.refresh_tokens
      → let (answer, w'') = refresh_route settings raw_token w' in
        (answer ≡ refused invalid_refresh_token)
        × (any (is_open_of t.user_id) w''.db.refresh_tokens ≡ false)
        × (p.entry w''.redis (revoked_sessions_key t.user_id)
            ≡ some (record {
              value = w'.clock / second;
              deadline = some (w'.clock + session_seconds settings * second);
            }))
  refresh-replay t user between w' lasting apart usable owner same allowed current free spared
        made =
      signs_out_again t between w' lasting usable (rotated-HashesApart t apart free) spared (
        made
        ∙ ap (λ r. (run_all between r.1).db.refresh_tokens)
            (refresh-rotates settings raw_token w t user apart usable owner same allowed current
              free))
