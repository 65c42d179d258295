-- ===== src/Tests/SessionRuns.antt =====
-- Sessions: refreshing, logging out and revoking.
use udesa_x_users_api.Model.Account.{can_log_in}
use udesa_x_users_api.Common.{
  ℕ, ◌≤◌, ◌≡◌, refl, inl, inr, [], ◌∷◌, none, some, true, false, arith, ltb, List,
}
use udesa_x_users_api.Model.Problem.{response_error}
use udesa_x_users_api.World.Exec.{ok, err}
use udesa_x_users_api.Cache.RateLimiter.Window.{at_time}
use udesa_x_users_api.Cache.Sessions.{revoke_all, is_token_revoked}
use udesa_x_users_api.Store.RefreshTokens.Once.{
  consumes, revokes_all, Block, commits, rolls_back, run_all, count_exchanges,
  count_exchanges-le_one,
}
use udesa_x_users_api.Api.Request.Replay.{refresh-replay}
use udesa_x_users_api.Api.Request.Regained.{refusal, refresh-regained}
use udesa_x_users_api.World.State.{World}
use udesa_x_users_api.Api.Request.{refused, refresh_route}
use udesa_x_users_api.Api.Request.Refreshing.{reuse-signs_out}
use udesa_x_users_api.Service.Auth.Refresh.{invalid_refresh_token, refresh}
use udesa_x_users_api.Service.Auth.Refresh.Rotation.{next_session, rotated, refresh-rotates}
use udesa_x_users_api.Service.Auth.Logout.{logout}
use udesa_x_users_api.Service.Auth.Logout.Closing.{logout-last_second, logout-closes}
use udesa_x_users_api.Service.Auth.Login.{claims_for}
use udesa_x_users_api.Api.CurrentUser.{get_current_user}
use udesa_x_users_api.Api.CurrentUser.Revocation.{Refused, revoke_all-ends_sessions}
use udesa_x_users_api.Api.CurrentUser.Access.{get_current_user_sound}
use udesa_x_users_api.Tests.Demo.{demo, settings, encode}
use udesa_x_users_api.Tests.Fixtures.{
  ana, blocked_ana, with_user, with_token, fresh_token, used_token, claims,
}

-- The token is offered three times, and the first exchange is rolled back.
abbrev offers : List Block
offers =
    rolls_back (consumes (50 ∷ []) 9 ∷ [])
    ∷ commits (consumes (50 ∷ []) 10 ∷ consumes (50 ∷ []) 20 ∷ [])
    ∷ []

count_exchanges-le_one_example : count_exchanges (50 ∷ []) offers (with_token fresh_token) ≤ 1
count_exchanges-le_one_example =
    count_exchanges-le_one (50 ∷ []) offers (with_token fresh_token) (refl, tt)

reuse-signs_out_example :
    (refresh_route settings (50 ∷ []) (with_token used_token)).0 ≡ refused invalid_refresh_token
unfolding udesa_x_users_api.Common.beq_text udesa_x_users_api.Security.hash_token
reuse-signs_out_example =
    (reuse-signs_out settings (50 ∷ []) (with_token used_token) used_token (omega arith) (refl, tt)
      refl refl).0

refresh-rotates_example : refresh settings (50 ∷ []) (with_token fresh_token) ≡ (
  ok (next_session settings (50 ∷ []) (with_token fresh_token) ana),
  rotated settings (50 ∷ []) (with_token fresh_token) fresh_token,
)
unfolding udesa_x_users_api.Common.beq_text udesa_x_users_api.Security.hash_token
    udesa_x_users_api.Model.Account.can_log_in
    udesa_x_users_api.Model.Account.temporary_password_expired
refresh-rotates_example =
    refresh-rotates settings (50 ∷ []) (with_token fresh_token) fresh_token ana (refl, tt) refl refl
      refl refl refl refl

logout-last_second_example :
    logout settings (encode claims) none (at_time 1499500000 (with_user ana))
    ≡ (err response_error, at_time 1499500000 (with_user ana))
unfolding udesa_x_users_api.Common.beq_text
logout-last_second_example =
    logout-last_second settings (encode claims) none (at_time 1499500000 (with_user ana)) claims
      refl (omega arith)

logout-closes_example :
    (is_token_revoked 60 (
      at_time 1499700000
        (logout settings (encode claims) none (at_time 1000500000 (with_user ana))).1)).0
    ≡ ok false
unfolding udesa_x_users_api.Common.beq_text
logout-closes_example =
    logout-closes settings (encode claims) none (at_time 1000500000 (with_user ana)) claims
      1499700000 refl (omega arith)

revoke_all-ends_sessions_example :
    Refused
      (get_current_user settings
        (encode (claims_for settings ana (with_user ana)))
        (47 ∷ [])
        (at_time 1100000000 (revoke_all 7 1000000000 900 (with_user ana)).1)).0
unfolding udesa_x_users_api.Service.Auth.Login.issue_session
    udesa_x_users_api.Security.issue_access_token
revoke_all-ends_sessions_example =
    revoke_all-ends_sessions settings ana (encode (claims_for settings ana (with_user ana)))
      (47 ∷ []) (with_user ana) (with_user ana)
      (at_time 1100000000 (revoke_all 7 1000000000 900 (with_user ana)).1) (omega arith) refl
      (omega arith) (omega arith) refl

get_current_user_sound_example : can_log_in ana ≡ true
unfolding get_current_user udesa_x_users_api.Common.beq_text
    udesa_x_users_api.Cache.Sessions.revoked_before is_token_revoked
    udesa_x_users_api.Store.Users.get udesa_x_users_api.Service.Auth.Blocked.deny_blocked_account
get_current_user_sound_example =
    (get_current_user_sound settings (encode claims) (47 ∷ []) (with_user ana) ana refl).5

-- In between somebody offers an unknown token, and a request that revokes everything is rolled back.
abbrev meanwhile : List Block
meanwhile = commits (consumes (59 ∷ []) 1000000007 ∷ []) ∷ rolls_back (revokes_all 7 5 ∷ []) ∷ []

-- The exchanged token comes back later.
abbrev comes_back : World
comes_back = record (run_all meanwhile (refresh settings (50 ∷ []) (with_token fresh_token)).1) {
  clock = 1000900000;
}

refresh-replay_example :
    (refresh_route settings (50 ∷ []) comes_back).0 ≡ refused invalid_refresh_token
unfolding udesa_x_users_api.Common.beq_text udesa_x_users_api.Security.hash_token can_log_in
    udesa_x_users_api.Model.Account.temporary_password_expired
refresh-replay_example =
    (refresh-replay settings (50 ∷ []) (with_token fresh_token) fresh_token ana meanwhile comes_back
      (omega arith) (refl, tt) refl refl refl refl refl refl ((refl, tt), (tt, tt)) refl).0

-- The token of a suspended account, which is released before the token expires.
abbrev suspended_world : World
suspended_world = record (with_token fresh_token) {
  db = record (with_token fresh_token).db { users = blocked_ana ∷ [] };
}

abbrev released_world : World
released_world = record (with_token fresh_token) { clock = 1000900000 }

refresh-regained_example :
    (refresh_route settings (50 ∷ []) suspended_world).0 ≡ refused (refusal blocked_ana)
unfolding can_log_in udesa_x_users_api.Common.beq_text udesa_x_users_api.Security.hash_token
    refresh_route refresh udesa_x_users_api.Store.RefreshTokens.consume
    udesa_x_users_api.Service.Auth.Refresh.renew udesa_x_users_api.Store.Users.get
    udesa_x_users_api.Service.Auth.Blocked.deny_blocked_account
    udesa_x_users_api.Model.Account.temporary_password_expired
refresh-regained_example =
    (refresh-regained settings (50 ∷ []) suspended_world fresh_token blocked_ana ana released_world
      (refl, tt) refl refl refl refl refl refl refl refl refl refl).0
