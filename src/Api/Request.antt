-- ===== src/Api/Request.antt =====
-- A request: `session_scope` of src/users_api/infrastructure/database/session.py around a handler, the
-- exception handlers of src/users_api/api/errors.py, and the route of `refresh` in
-- src/users_api/api/auth.py, which answers a reuse instead of raising it.
pub mod Refreshing
pub mod Replay
pub mod Regained
use udesa_x_users_api.Common.{Text}
use udesa_x_users_api.Config.{Settings}
use udesa_x_users_api.Model.Problem.{
  Problem, Error, problem, reused, integrity_error, data_error, attribute_error, response_error,
}
use udesa_x_users_api.Platform.{Platform}
use udesa_x_users_api.World.State.{World}
use udesa_x_users_api.World.Exec.{Result, ok, err, Action}
use udesa_x_users_api.Service.Auth.Login.{IssuedSession}
use udesa_x_users_api.Service.Auth.Refresh.{refresh}

-- What the client is told: a body, a Problem Details response, or a bare 500.
pub data Answer (A : Type 0) : Type 0 where
  success : A → Answer A
  refused : Problem → Answer A
  server_error : Answer A

abbrev pub answer_error : {A : Type 0} → Error → Answer A
answer_error (problem x) = refused x
answer_error (reused x) = refused x
answer_error integrity_error = server_error
answer_error data_error = server_error
answer_error attribute_error = server_error
answer_error response_error = server_error

module _ ⦃p : Platform⦄ where
  -- A raised exception rolls the database back. Redis is outside the transaction.
  unfoldable pub session_scope : {A : Type 0} → Action A → Action A
  session_scope m w =
      let (r, w') = m w in elim r [ ok a ↦ (ok a, w') | err e ↦ (err e, record w' { db = w.db }) ]

  abbrev pub answered : {A : Type 0} → Result A → Answer A
  answered (ok a) = success a
  answered (err e) = answer_error e

  unfoldable pub respond : {A : Type 0} → Action A → World → Answer A × World
  unfolding session_scope
  respond m w = let (r, w') = session_scope m w in (answered r, w')

  -- `except ReusedRefreshTokenError as reused: return ...`
  unfoldable pub catch_reused : {A : Type 0} → Action A → Action (Answer A)
  catch_reused m w =
      let (r, w') = m w in
      elim r [
        | ok a ↦ (ok (success a), w')
        | err e ↦ elim e [ reused x ↦ (ok (refused x), w') | other ↦ (err other, w') ]
      ]

  abbrev pub flatten : {A : Type 0} → Answer (Answer A) → Answer A
  flatten (success a) = a
  flatten (refused x) = refused x
  flatten server_error = server_error

  unfoldable pub refresh_route : Settings → Text → World → Answer IssuedSession × World
  unfolding respond catch_reused
  refresh_route settings raw_token w =
      let (r, w') = respond (catch_reused (refresh settings raw_token)) w in (flatten r, w')
