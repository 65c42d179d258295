-- ===== src/Api/Server/Consistency.antt =====
-- Whatever is asked of the service, the accounts stay sound and the unique columns stay unique.
use udesa_x_users_api.Common.{ℕ, ◌≡◌, List, [], ◌∷◌, arith}
use udesa_x_users_api.Config.{Settings}
use udesa_x_users_api.Platform.{Platform}
use udesa_x_users_api.World.State.{World}
use udesa_x_users_api.World.Exec.{Result, ok, err, Action}
use udesa_x_users_api.World.Ensures.{Keeps, anything}
use udesa_x_users_api.Api.Bodies.{Libraries, Headers}
use udesa_x_users_api.Api.Request.{respond, catch_reused}
use udesa_x_users_api.Api.Routes.Auth
use udesa_x_users_api.Api.Server.{Call, route, serve, serve_all}
use udesa_x_users_api.Api.Server.Routes.{route-Keeps}
use udesa_x_users_api.Integrity.{IsConsistent}

module _ ⦃p : Platform⦄ {A : Type 0} (m : Action A) where
  respond-IsConsistent :
      Keeps IsConsistent m → (w : World) → IsConsistent w.db → IsConsistent (respond m w).1.db
  unfolding respond
  respond-IsConsistent keeps w h = committed (m w).0 (m w).1 (keeps.at w h).0
    where
      committed :
          (r : Result A) (w' : World)
          → IsConsistent w'.db
          → IsConsistent
              (let z : Result A × World = elim r [
                | ok a ↦ (ok a, w')
                | err e ↦ (err e, record w' { db = w.db })
              ] in
                z.1).db
      committed (ok a) w' h' = h'
      committed (err e) w' h' = h

  world-catch_reused : (w : World) → (catch_reused m w).1 ≡ (m w).1
  unfolding catch_reused
  world-catch_reused w = ground arith

  catch_reused-Keeps : Keeps IsConsistent m → Keeps IsConsistent (catch_reused m)
  catch_reused-Keeps keeps = record {
    at = λ w h. (rw (world-catch_reused w) (keeps.at w h).0, anything (catch_reused m w).0);
  }

module _ ⦃p : Platform⦄ (lib : Libraries) (settings : Settings) where
  serve-IsConsistent :
      (headers : Headers) (call : Call) (w : World)
      → IsConsistent w.db
      → IsConsistent (serve lib settings headers call w).1.db
  unfolding serve Auth.refresh route
  serve-IsConsistent headers (Call.refresh refresh_token) w h =
      respond-IsConsistent (catch_reused (Auth.refresh_session settings refresh_token))
        (catch_reused-Keeps (Auth.refresh_session settings refresh_token)
          (route-Keeps lib settings headers (Call.refresh refresh_token)))
        w h
  serve-IsConsistent headers call w h =
      respond-IsConsistent (route lib settings headers call) (route-Keeps lib settings headers call)
        w h

  -- Whatever requests the service answers, one after the other and whoever sends them, consistent
  -- tables stay consistent: no two accounts share an id, an email or a handle, no two refresh tokens a
  -- digest, and every account is sound. So no administrator is ever suspended or deleted, a reason
  -- stands exactly beside a suspension, and only an administrator owes a change of password.
  pub serve_all-IsConsistent :
      (requests : List (ℕ × Headers × Call)) (w : World)
      → IsConsistent w.db
      → IsConsistent (serve_all lib settings requests w).db
  unfolding serve_all
  serve_all-IsConsistent [] w h = h
  serve_all-IsConsistent ((at, headers, call) ∷ rest) w h =
      serve_all-IsConsistent rest _ (serve-IsConsistent headers call (record w { clock = at }) h)
