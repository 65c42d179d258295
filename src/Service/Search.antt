-- ===== src/Service/Search.antt =====
-- src/users_api/app/services/search.py, and the client of
-- src/users_api/infrastructure/posts_api/blocks.py. The repository reads the cursor of each batch: the
-- first is the request's, and the later ones are its own.
pub mod Loop
use udesa_x_users_api.Common.{
  ℕ, zero, suc, Bool, true, false, not, ◌||◌, Option, none, some, List, [], ◌∷◌, ◌++◌, map, Text,
  ◌==◌, nat_eq, length, ltb, take, any, keep, if◌then◌else◌,
}
use udesa_x_users_api.Text.{strip}
use udesa_x_users_api.Model.Account.{User}
use udesa_x_users_api.Model.Problem.{Problem, problem, says}
use udesa_x_users_api.Platform.{Platform}
use udesa_x_users_api.World.Exec.{Action, pure, raise_if, or_raise, ◌>>=◌, ◌>>◌}
use udesa_x_users_api.Store.Cursors.{read_cursor, next_text}
use udesa_x_users_api.Store.Searches.{
  Cursor, last_position, search_batch_size, search_public_accounts,
}

abbrev pub invalid_query : Problem
invalid_query = record {
  http_status = 422;
  code = "invalid-query";
  title = "Búsqueda inválida";
  detail = says "Escribí al menos 3 caracteres sin contar el @ inicial";
  retry_after = none;
}

abbrev pub search_unavailable : Problem
search_unavailable = record {
  http_status = 503;
  code = "search-unavailable";
  title = "Búsqueda no disponible";
  detail = says "No se pudieron comprobar los bloqueos. Intentalo de nuevo.";
  retry_after = none;
}

-- `HttpBlocksClient.excluded_ids`: what the two attempts answer, nothing where one fails.
unfoldable pub excluded_ids : Option (List ℕ) → Option (List ℕ) → Option (List ℕ)
excluded_ids (some ids) second = some ids
excluded_ids none second = second

-- The query without spaces around it and without its `@`, and whether it had one.
abbrev pub fragment_of : Text → Text × Bool
fragment_of [] = ([], false)
fragment_of (c ∷ s) = if c == b'@' then (s, true) else (c ∷ s, false)

abbrev pub is_excluded : List ℕ → User → Bool
is_excluded ids u = any (λ id. id == u.id) ids

-- `visible[:20], visible[19].cursor if len(visible) > 20 else None`
abbrev pub first_page : List User → List User × Option Cursor
first_page visible =
    (take 20 visible, if ltb 20 (length visible) then last_position (take 20 visible) else none)

module _ ⦃p : Platform⦄ where
  -- The loop of `search`, from the candidates on. `blocks` answers each batch of ids: those to leave
  -- out, or nothing where the service that keeps the blocks is not available.
  unfoldable pub look_at :
      (blocks : List ℕ → Option (List ℕ)) (go : Option Cursor → List User → Action (List User))
      (visible candidates : List User)
      → Action (List User)
  look_at blocks go visible candidates = if length candidates == 0 then pure visible else do
    excluded ← or_raise (blocks (map (λ u. u.id) candidates)) (problem search_unavailable)
    let seen = visible ++ keep (λ u. not (is_excluded excluded u)) candidates
    if ltb (length candidates) search_batch_size
        then pure seen
        else go (last_position candidates) seen

  unfoldable pub collect :
      (blocks : List ℕ → Option (List ℕ)) (fragment : Text) (handle_only : Bool) (fuel : ℕ)
      (cursor : Option Cursor) (visible : List User)
      → Action (List User)
  unfolding look_at
  collect blocks fragment handle_only zero cursor visible = pure visible
  collect blocks fragment handle_only (suc fuel) cursor visible =
      let go = collect blocks fragment handle_only fuel in
      if not (ltb (length visible) 21)
      then pure visible
      else search_public_accounts fragment handle_only cursor >>= look_at blocks go visible

  unfoldable pub search :
      (blocks : List ℕ → Option (List ℕ)) (other_spelling : List ℕ → Option Cursor) (fuel : ℕ)
      (query : Text) (cursor : Option Text)
      → Action (List User × Option Text)
  unfolding collect read_cursor
  search blocks other_spelling fuel query cursor = do
    let (fragment, handle_only) = fragment_of (strip query)
    raise_if (any (λ c. c == 0) fragment || ltb (length fragment) 3) (problem invalid_query)
    position ← read_cursor other_spelling cursor
    visible ← collect blocks fragment handle_only fuel position []
    let (candidates, next) = first_page visible
    pure (candidates, next_text next)
