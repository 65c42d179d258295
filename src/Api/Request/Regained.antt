-- ===== src/Api/Request/Regained.antt =====
-- A refresh that the state of the account refuses, and the same token once the account is released.
use udesa_x_users_api.Common.{
  ◌≡◌, ap, ◌∙◌, true, false, not, ◌&&◌, ◌==◌, some, any, find?, ltb, map_where, Text, arith,
  if◌then◌else◌,
}
use udesa_x_users_api.Config.{Settings}
use udesa_x_users_api.Model.Account.{
  User, under_review, status_eq, can_log_in, is_deleted, temporary_password_expired,
}
use udesa_x_users_api.Model.Problem.{Problem}
use udesa_x_users_api.Model.Token.{RefreshToken}
use udesa_x_users_api.Platform.{Platform}
use udesa_x_users_api.World.State.{World}
use udesa_x_users_api.World.Exec.{ok}
use udesa_x_users_api.Store.Users.{has_id, get}
use udesa_x_users_api.Store.RefreshTokens.{has_hash, is_consumable, mark_used, clashes, consume}
use udesa_x_users_api.Store.RefreshTokens.Laws.{HashesApart, usable_at, find?-is_consumable}
use udesa_x_users_api.Security.{hash_token}
use udesa_x_users_api.Service.Auth.Blocked.{
  account_under_review, account_suspended, temporary_password_lapsed, deny_blocked_account,
  deny_expired_temporary_password, refresh_failed_title,
}
use udesa_x_users_api.Service.Auth.Refresh.{renew, refresh}
use udesa_x_users_api.Service.Auth.Refresh.Rotation.{
  next_token, next_session, rotated, refresh-rotates,
}
use udesa_x_users_api.Api.Request.{refused, refresh_route}

-- What is answered for an account that may not log in, or whose temporary password has expired.
abbrev pub refusal : User → Problem
refusal user =
    if can_log_in user
    then temporary_password_lapsed refresh_failed_title
    else if (user.status == under_review) && not (is_deleted user)
    then account_under_review refresh_failed_title
    else account_suspended refresh_failed_title

module _ ⦃p : Platform⦄ (settings : Settings) (raw_token : Text) (w : World) where
  -- The refusal leaves the whole world as it was.
  refused-keeps :
      (t : RefreshToken) (user : User)
      → HashesApart w.db.refresh_tokens
      → usable_at w.clock (find? (has_hash (hash_token raw_token)) w.db.refresh_tokens) ≡ some t
      → find? (has_id t.user_id) w.db.users ≡ some user
      → (can_log_in user && not (temporary_password_expired user w.clock)) ≡ false
      → refresh_route settings raw_token w ≡ (refused (refusal user), w)
  unfolding refresh_route refresh renew consume get deny_blocked_account
      deny_expired_temporary_password can_log_in is_deleted temporary_password_expired
  refused-keeps t user apart usable owner denied = ground (
    arith,
    usable,
    owner,
    denied,
    find?-is_consumable (hash_token raw_token) w.clock w.db.refresh_tokens apart,
  )

  -- A usable token of an account that is suspended, under review, deleted, or whose temporary password
  -- has expired is refused with the reason, and is not spent by it: presented again before it expires,
  -- when the tokens are as the refusal left them and the account may log in, it is exchanged for a
  -- session, marked used, and followed by the next token of its family, where that repeats no id and no
  -- digest.
  pub refresh-regained :
      (t : RefreshToken) (user user' : User) (w' : World)
      → HashesApart w.db.refresh_tokens
      → usable_at w.clock (find? (has_hash (hash_token raw_token)) w.db.refresh_tokens) ≡ some t
      → find? (has_id t.user_id) w.db.users ≡ some user
      → (can_log_in user && not (temporary_password_expired user w.clock)) ≡ false
      → w'.db.refresh_tokens ≡ (refresh_route settings raw_token w).1.db.refresh_tokens
      → ltb w'.clock t.expires_at ≡ true
      → find? (has_id t.user_id) w'.db.users ≡ some user'
      → user'.id ≡ t.user_id
      → can_log_in user' ≡ true
      → temporary_password_expired user' w'.clock ≡ false
      → any (clashes (next_token settings raw_token w' t)) (
          map_where
            (is_consumable (hash_token raw_token) w'.clock)
            (mark_used w'.clock)
            w'.db.refresh_tokens)
        ≡ false
      → ((refresh_route settings raw_token w).0 ≡ refused (refusal user))
        × (refresh settings raw_token w'
            ≡ (ok (next_session settings raw_token w' user'), rotated settings raw_token w' t))
  refresh-regained t user user' w' apart usable owner denied kept in_time owner' same allowed
        current free =
      let unspent = refused-keeps t user apart usable owner denied in
      let tokens : w'.db.refresh_tokens ≡ w.db.refresh_tokens =
        kept ∙ ap (λ r. r.1.db.refresh_tokens) unspent in
      (
        ap (λ r. r.0) unspent,
        refresh-rotates settings raw_token w' t user' (rw tokens apart)
            (rw tokens (ground (arith, usable, in_time))) owner' same allowed current free,
      )
