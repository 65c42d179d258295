-- ===== src/Store/Cursors.antt =====
-- `encode_cursor` and `decode_cursor` of src/users_api/infrastructure/database/user_repository.py.
pub mod RoundTrip
use udesa_x_users_api.Common.{
  ℕ, ◌+◌, ◌>>=◌, Option, none, some, List, [], ◌∷◌, ◌++◌, Text, ◌==◌, nat_eq, if◌then◌else◌,
}
use udesa_x_users_api.Text.Base64.{urlsafe_b64encode, urlsafe_b64decode}
use udesa_x_users_api.Text.Iso.{isoformat, read_isoformat, read_char}
use udesa_x_users_api.Text.Uuid.{str_uuid, read_uuid}
use udesa_x_users_api.Model.Problem.{Problem, problem, says}
use udesa_x_users_api.Platform.{Platform}
use udesa_x_users_api.World.Exec
use udesa_x_users_api.World.Exec.{Action, pure, or_raise}
use udesa_x_users_api.Store.Searches.{Cursor}

abbrev pub invalid_cursor : Problem
invalid_cursor = record {
  http_status = 400;
  code = "invalid-cursor";
  title = "Cursor inválido";
  detail = says "El cursor no tiene un formato reconocible";
  retry_after = none;
}

-- The bytes of a text without characters above 127 are its code points.
unfoldable pub spelled : Cursor → Text
spelled cursor = isoformat cursor.0 ++ b'|' ∷ str_uuid cursor.1

unfoldable pub encode_cursor : Cursor → Text
unfolding spelled
encode_cursor cursor = urlsafe_b64encode (spelled cursor)

abbrev pub whole : ℕ × Text → Option ℕ
whole (id, []) = some id
whole (id, c ∷ s) = none

-- A position in the spelling of `encode_cursor`.
unfoldable pub read_spelled : Text → Option Cursor
read_spelled s = read_isoformat s >>= λ (at, s).
    read_char b'|' s >>= λ s. read_uuid s >>= λ read. whole read >>= λ id. some (at, id)

abbrev pub or_else : Option Cursor → Option Cursor → Option Cursor
or_else (some cursor) other = some cursor
or_else none other = other

-- `other_spelling` is what UTF-8, `fromisoformat` and `UUID` make of bytes in any other spelling.
unfoldable pub decode_cursor : (List ℕ → Option Cursor) → Text → Option Cursor
unfolding read_spelled
decode_cursor other_spelling value =
    urlsafe_b64decode value >>= λ bytes. or_else (read_spelled bytes) (other_spelling bytes)

-- The text of the cursor, where there is one.
abbrev pub next_text : Option Cursor → Option Text
next_text none = none
next_text (some cursor) = some (encode_cursor cursor)

module _ ⦃p : Platform⦄ where
  -- The cursor of a request, where there is one.
  unfoldable pub read_cursor : (List ℕ → Option Cursor) → Option Text → Action (Option Cursor)
  read_cursor other_spelling none = pure none
  read_cursor other_spelling (some value) =
      Exec.◌>>=◌ (or_raise (decode_cursor other_spelling value) (problem invalid_cursor))
        λ cursor. pure (some cursor)
