-- ===== src/Service/PasswordReset/Requests.antt =====
-- Asking for a reset link: how many are mailed, and what the answer tells.
use udesa_x_users_api.Common.{
  ℕ, suc, ◌+◌, ◌-◌, ◌*◌, ◌/◌, ◌≤◌, ◌<◌, ◌≡◌, refl, Option, none, some, List, [], ◌∷◌, Text, nat_eq,
  ==_refl, text_eq, ltb, lt→ltb, length, length-append, find?, All, arith, Bool-cases, inl, inr,
}
use udesa_x_users_api.Text.{normalise}
use udesa_x_users_api.Config.{Settings}
use udesa_x_users_api.Model.Account.{User}
use udesa_x_users_api.Model.Event.{OutboxRow, password_reset_requested}
use udesa_x_users_api.Model.Problem.{problem}
use udesa_x_users_api.Platform.{Platform, second}
use udesa_x_users_api.World.State.{World}
use udesa_x_users_api.World.Exec.{err}
use udesa_x_users_api.Store.Users.{has_identifier, find_by_identifier}
use udesa_x_users_api.Store.ResetTokens
use udesa_x_users_api.Store.ResetTokens.{has_hash}
use udesa_x_users_api.Store.Records.{build_event, add_event}
use udesa_x_users_api.Cache.RateLimiter.{stored, hit}
use udesa_x_users_api.Cache.RateLimiter.Window.{at_time, marked, entry-hit, result-hit, db-hit}
use udesa_x_users_api.Security.{generate_emailed_token}
use udesa_x_users_api.Service.PasswordReset.{
  forgot_password, send_reset_to, guard_reset_limit, reset_request_key, too_many_reset_requests,
}

module _ ⦃p : Platform⦄ (settings : Settings) where
  abbrev pub seconds : ℕ
  seconds = settings.password_reset_window_minutes * 60

  abbrev mailed : World → ℕ
  mailed w = length w.db.outbox

  -- The row that mails the link.
  abbrev mail : User → World → OutboxRow
  mail user w = record {
    event = record {
      id = p.uuid4 (w.drawn + 2);
      time = w.clock / 1000;
      payload = password_reset_requested user (p.token_urlsafe 32 w.drawn);
    };
    created_at = w.clock;
  }

  send-mailed :
      (user : Option User) (w : World) → mailed (send_reset_to settings user w).1 ≤ suc (mailed w)
  unfolding send_reset_to ResetTokens.add build_event add_event generate_emailed_token
  send-mailed none w = ground arith
  send-mailed (some user) w = ground (arith, length-append w.db.outbox (mail user w ∷ []))

  pub send-redis :
      (user : Option User) (w : World) → (send_reset_to settings user w).1.redis ≡ w.redis
  unfolding send_reset_to ResetTokens.add build_event add_event generate_emailed_token
  send-redis none w = refl
  send-redis (some user) w = ground arith

  abbrev pub hit_by : Text → World → World
  hit_by identifier w = (hit (reset_request_key identifier) seconds w).1

  -- The counter of the identifier after the request.
  abbrev pub requests : Text → World → ℕ
  requests identifier w = (marked w.clock seconds (stored (reset_request_key identifier) w)).value

  pub forgot-refused :
      (identifier : Text) (w : World)
      → settings.password_reset_max_requests < requests identifier w
      → forgot_password settings identifier w
        ≡ (err (problem (too_many_reset_requests settings)), hit_by identifier w)
  unfolding forgot_password guard_reset_limit
  forgot-refused identifier w many =
      ground (arith, result-hit (reset_request_key identifier) seconds w)

  pub forgot-sends :
      (identifier : Text) (w : World)
      → requests identifier w ≤ settings.password_reset_max_requests
      → forgot_password settings identifier w
        ≡ send_reset_to settings
            (find? (has_identifier (normalise identifier)) w.db.users)
            (hit_by identifier w)
  unfolding forgot_password guard_reset_limit find_by_identifier
  forgot-sends identifier w few = ground (
    arith,
    result-hit (reset_request_key identifier) seconds w,
    db-hit (reset_request_key identifier) seconds w,
  )

  -- Requests, each at an instant and with an identifier.
  abbrev pub request_all : List (ℕ × Text) → World → World
  request_all [] w = w
  request_all ((t, identifier) ∷ rest) w =
      request_all rest (forgot_password settings identifier (at_time t w)).1

  -- A request before the instant `end` whose identifier reads as `name`.
  abbrev pub AsksBefore : ℕ → Text → ℕ × Text → Type 0
  AsksBefore end name request = (request.0 < end) × (normalise request.1 ≡ name)

  -- One request, at a counter that holds `n` marks.
  record Answered (identifier : Text) (n : ℕ) (end : ℕ) (w : World) : Type 0 where
    counted :
        p.entry (forgot_password settings identifier w).1.redis (reset_request_key identifier)
        ≡ some (record { value = suc n; deadline = some end })
    few :
        mailed (forgot_password settings identifier w).1
          + (settings.password_reset_max_requests - suc n)
        ≤ mailed w + (settings.password_reset_max_requests - n)

  forgot-Answered :
      (identifier : Text) (n end : ℕ) (w : World)
      → marked w.clock seconds (stored (reset_request_key identifier) w)
        ≡ record { value = suc n; deadline = some end }
      → Answered identifier n end w
  forgot-Answered identifier n end w marks =
      elim (Bool-cases (ltb settings.password_reset_max_requests (suc n))) [
        | inl many ↦
            let refused = forgot-refused identifier w (ground (arith, marks)) in
            record {
              counted = rw refused hit-counted;
              few = rw refused (ground (arith, hit-mailed));
            }
        | inr few ↦
            let sends = forgot-sends identifier w (ground (arith, marks)) in
            record {
              counted = rw sends (rw (send-redis found (hit_by identifier w)) hit-counted);
              few = rw sends (ground (arith, hit-mailed, send-mailed found (hit_by identifier w)));
            }
      ]
    where
      found : Option User
      found = find? (has_identifier (normalise identifier)) w.db.users

      hit-counted :
          p.entry (hit_by identifier w).redis (reset_request_key identifier)
          ≡ some (record { value = suc n; deadline = some end })
      hit-counted = ground (
        arith,
        marks,
        entry-hit (reset_request_key identifier) seconds w (reset_request_key identifier),
        ==_refl (reset_request_key identifier),
      )

      hit-mailed : mailed (hit_by identifier w) ≡ mailed w
      hit-mailed = rw (db-hit (reset_request_key identifier) seconds w) refl

  same_key :
      (identifier name : Text)
      → normalise identifier ≡ normalise name
      → reset_request_key identifier ≡ reset_request_key name
  unfolding reset_request_key
  same_key identifier name same = rw same refl

  mailed-request_all :
      (n end : ℕ) (name : Text) (asked : List (ℕ × Text)) (w : World)
      → p.entry w.redis (reset_request_key name)
        ≡ some (record { value = suc n; deadline = some end })
      → All (AsksBefore end (normalise name)) asked
      → mailed (request_all asked w) ≤ mailed w + (settings.password_reset_max_requests - suc n)
  mailed-request_all n end name [] w e h = omega arith
  mailed-request_all n end name ((t, identifier) ∷ asked) w e h =
      let one =
        forgot-Answered identifier (suc n) end (at_time t w)
          (rw (same_key identifier name h.0.1) (ground (arith, e, lt→ltb t end h.0.0))) in
      omega (
        arith,
        one.few,
        mailed-request_all (suc n) end name asked
            (forgot_password settings identifier (at_time t w)).1
            (rw (← same_key identifier name h.0.1) one.counted) h.1,
      )

  -- However often a link is asked for in the window that the first request opens, with whatever
  -- spelling of one identifier, no more links are mailed than the settings allow.
  pub request_all-mailed :
      (t₀ : ℕ) (name : Text) (asked : List (ℕ × Text)) (w : World)
      → stored (reset_request_key name) (at_time t₀ w) ≡ none
      → All
          (AsksBefore (t₀ + settings.password_reset_window_minutes * 60 * second) (normalise name))
          asked
      → length (request_all ((t₀, name) ∷ asked) w).db.outbox
        ≤ length w.db.outbox + settings.password_reset_max_requests
  request_all-mailed t₀ name asked w fresh h =
      let one =
        forgot-Answered name 0 (t₀ + seconds * second) (at_time t₀ w) (ground (arith, fresh)) in
      omega (
        arith,
        one.few,
        mailed-request_all 0 (t₀ + seconds * second) name asked
            (forgot_password settings name (at_time t₀ w)).1 one.counted h,
      )
