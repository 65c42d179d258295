-- ===== src/Api/CurrentUser/Revocation.antt =====
-- A revocation ends the sessions it covers for good.
use udesa_x_users_api.Common.{
  ℕ, ◌+◌, ◌*◌, ◌/◌, ◌<◌, ◌≤◌, ◌≡◌, ◌⊎◌, refl, some, Text, text_eq, arith, ==_refl,
}
use udesa_x_users_api.Config.{Settings}
use udesa_x_users_api.Model.Account.{User}
use udesa_x_users_api.Model.Problem.{problem}
use udesa_x_users_api.Platform.{Platform, Claims, second}
use udesa_x_users_api.World.State.{World}
use udesa_x_users_api.World.Exec.{Result, ok, err}
use udesa_x_users_api.Cache.Sessions.{
  revoked_sessions_key, revoke_all, revoked_before, is_token_revoked,
}
use udesa_x_users_api.Cache.Sessions.Laws.{entry-revoke_all}
use udesa_x_users_api.Security.{issue_access_token}
use udesa_x_users_api.Service.Auth.Login.{claims_for, issue_session, session_seconds}
use udesa_x_users_api.Api.CurrentUser.{
  invalid_access_token, session_revoked, deny_revoked, get_current_user,
}

-- The token is not accepted: it is expired or of another issuer, or its session was closed.
abbrev pub Refused : Result User → Type 0
Refused r = (r ≡ err (problem invalid_access_token)) ⊎ (r ≡ err (problem session_revoked))

module _ ⦃p : Platform⦄ (settings : Settings) where
  -- The cutoff outlives every token that it covers.
  deny_revoked-covered :
      (c : Claims) (at : ℕ) (w : World)
      → c.iat * second ≤ at
      → c.exp ≤ c.iat + session_seconds settings
      → w.clock < c.exp * second
      → p.entry w.redis (revoked_sessions_key c.sub)
        ≡ some (record {
          value = at / second;
          deadline = some (at + session_seconds settings * second);
        })
      → deny_revoked c w ≡ (err (problem session_revoked), w)
  unfolding deny_revoked revoked_before is_token_revoked
  deny_revoked-covered c at w issued short alive e = ground arith

  cutoff-Refused :
      (c : Claims) (path : Text) (at : ℕ) (w : World)
      → c.iat * second ≤ at
      → c.exp ≤ c.iat + session_seconds settings
      → at ≤ w.clock
      → p.entry w.redis (revoked_sessions_key c.sub)
        ≡ some (record {
          value = at / second;
          deadline = some (at + session_seconds settings * second);
        })
      → Refused (get_current_user settings (p.jwt_encode c) path w).0
  unfolding get_current_user
  cutoff-Refused c path at w issued short later e = ground (
    arith,
    p.decode-encode w.clock settings.jwt_issuer c,
    deny_revoked-covered c at w issued short,
  )

  issue_session-claims :
      (user : User) (w : World) (token : Text)
      → (issue_session settings user w).0 ≡ ok token
      → (c : Claims) × (token ≡ p.jwt_encode c)
        × (c.sub ≡ user.id)
        × (c.iat * second ≤ w.clock)
        × (c.exp ≡ c.iat + session_seconds settings)
  unfolding issue_session issue_access_token
  issue_session-claims user w token h =
      (claims_for settings user w, ground arith, refl, omega arith, omega arith)

  -- An access token that was handed out before the sessions of its account were revoked, in the same
  -- instant at the latest, is refused at every later instant and on every path, for as long as nobody
  -- writes the account's cutoff again: while the cutoff is stored it covers the token, and when the
  -- cutoff is gone the token has expired.
  pub revoke_all-ends_sessions :
      (user : User) (token path : Text) (w₀ w w' : World)
      → 0 < session_seconds settings
      → (issue_session settings user w₀).0 ≡ ok token
      → w₀.clock ≤ w.clock
      → w.clock ≤ w'.clock
      → p.entry w'.redis (revoked_sessions_key user.id)
        ≡ p.entry
            (revoke_all user.id w.clock (session_seconds settings) w).1.redis
            (revoked_sessions_key user.id)
      → Refused (get_current_user settings token path w').0
  revoke_all-ends_sessions user token path w₀ w w' lasting issued before after kept =
      let (c, is_token, of_user, early, short) = issue_session-claims user w₀ token issued in
      rw is_token (
        cutoff-Refused c path w.clock w' (omega arith) (omega arith) after (
          rw of_user (
            ground (
              arith,
              kept,
              entry-revoke_all user.id w.clock (session_seconds settings) w
                  (revoked_sessions_key user.id) lasting,
              ==_refl (revoked_sessions_key user.id),
            ))))
