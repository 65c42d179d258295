-- ===== src/Service/PasswordReset/Silence.antt =====
-- What the answer to a request for a reset link tells of the accounts: nothing.
use udesa_x_users_api.Common.{
  ℕ, suc, ◌+◌, ◌≡◌, refl, sym, ◌∙◌, false, ◌||◌, Option, none, some, Text, ◌==◌, nat_eq, ltb, any,
  find?, arith, Bool-cases, inl, inr, if◌then◌else◌,
}
use udesa_x_users_api.Text.{normalise}
use udesa_x_users_api.Config.{Settings}
use udesa_x_users_api.Model.Account.{User}
use udesa_x_users_api.Model.Problem.{problem}
use udesa_x_users_api.Platform.{Platform}
use udesa_x_users_api.World.State.{Database, World}
use udesa_x_users_api.World.Exec.{Result, None, ok, err}
use udesa_x_users_api.Store.Users.{has_identifier}
use udesa_x_users_api.Store.ResetTokens
use udesa_x_users_api.Store.ResetTokens.{has_hash}
use udesa_x_users_api.Store.Records.{build_event, add_event}
use udesa_x_users_api.Cache.RateLimiter.{hit}
use udesa_x_users_api.Cache.RateLimiter.Window.{db-hit, drawn-hit}
use udesa_x_users_api.Security.{hash_token, generate_emailed_token}
use udesa_x_users_api.Service.PasswordReset.{
  forgot_password, send_reset_to, reset_request_key, too_many_reset_requests,
}
use udesa_x_users_api.Service.PasswordReset.Requests.{
  seconds, hit_by, requests, forgot-refused, forgot-sends, send-redis,
}

module _ ⦃p : Platform⦄ where
  -- No row has the id or the digest that comes next.
  abbrev pub Unrepeated : ℕ → Database → Type 0
  Unrepeated n db =
      (any (λ r. r.id == p.uuid4 (suc n) || has_hash (hash_token (p.token_urlsafe 32 n)) r)
          db.reset_tokens
        ≡ false)
      × (any (λ r. r.event.id == p.uuid4 (n + 2)) db.outbox ≡ false)

module _ ⦃p : Platform⦄ (settings : Settings) (identifier : Text) where
  send-ok :
      (user : Option User) (w : World)
      → Unrepeated w.drawn w.db
      → (send_reset_to settings user w).0 ≡ ok tt
  unfolding send_reset_to ResetTokens.add build_event add_event generate_emailed_token
  send-ok none w h = refl
  send-ok (some user) w h = ground (arith, h.0, h.1)

  abbrev verdict : World → Result None
  verdict w =
      if ltb settings.password_reset_max_requests (requests settings identifier w)
      then err (problem (too_many_reset_requests settings))
      else ok tt

  forgot-told :
      (w : World)
      → Unrepeated w.drawn w.db
      → ((forgot_password settings identifier w).0 ≡ verdict w)
        × ((forgot_password settings identifier w).1.redis ≡ (hit_by settings identifier w).redis)
  forgot-told w h =
      elim (Bool-cases
        (ltb settings.password_reset_max_requests (requests settings identifier w))) [
          | inl many ↦
              let refused = forgot-refused settings identifier w (ground (arith, many)) in
              rw (refused, many) (refl, refl)
          | inr few ↦
              let sends = forgot-sends settings identifier w (ground (arith, few)) in
              rw (sends, few)
                (
                  send-ok found (hit_by settings identifier w) unrepeated,
                  send-redis settings found (hit_by settings identifier w),
                )
        ]
    where
      found : Option User
      found = find? (has_identifier (normalise identifier)) w.db.users

      unrepeated : Unrepeated (hit_by settings identifier w).drawn (hit_by settings identifier w).db
      unrepeated =
          rw
            (
              drawn-hit (reset_request_key identifier) (seconds settings) w,
              db-hit (reset_request_key identifier) (seconds settings) w,
            )
            h

  redis-hit :
      (w : World) (db : Database)
      → (hit_by settings identifier (record w { db = db })).redis
        ≡ (hit_by settings identifier w).redis
  unfolding hit
  redis-hit w db = ground arith

  -- The answer to a request for a reset link and what it leaves in Redis are the same whatever the
  -- tables hold, as long as the ids and the token drawn for the link are new in them: whether an
  -- account has that email or handle, and whether it may log in, does not show.
  pub forgot_password-same_answer :
      (w : World) (db : Database)
      → Unrepeated w.drawn w.db
      → Unrepeated w.drawn db
      → ((forgot_password settings identifier (record w { db = db })).0
          ≡ (forgot_password settings identifier w).0)
        × ((forgot_password settings identifier (record w { db = db })).1.redis
            ≡ (forgot_password settings identifier w).1.redis)
  forgot_password-same_answer w db h h' =
      let here = forgot-told w h in
      let there = forgot-told (record w { db = db }) h' in
      (there.0 ∙ sym here.0, there.1 ∙ redis-hit w db ∙ sym here.1)
