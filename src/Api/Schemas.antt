-- ===== src/Api/Schemas.antt =====
-- The rules of the request bodies: src/users_api/api/schemas.
pub mod Formats
use Prim.Native.Nat.{pred}
use udesa_x_users_api.Common.{
  ℕ, zero, suc, Bool, true, false, not, ◌&&◌, ◌||◌, Option, none, some, List, [], ◌∷◌, Text, String,
  ◌==◌, nat_eq, text_eq, ltb, leb, any, all, length, if◌then◌else◌,
}
use udesa_x_users_api.Text.{is_upper, is_digit, lower, strip}

-- What a validator answers: the value, or the message of its `ValueError`.
pub data Checked : Type 0 where
  valid : Text → Checked
  invalid : String → Checked

unfoldable pub enforce_password_policy : Text → Checked
enforce_password_policy value =
    if not (any is_upper value)
    then invalid "La contraseña debe tener al menos una mayúscula"
    else if not (any is_digit value)
    then invalid "La contraseña debe tener al menos un número"
    else valid value

-- `[a-zA-Z0-9_]`
unfoldable pub is_handle_char : ℕ → Bool
is_handle_char c =
    (leb b'a' c && leb c b'z')
    || (leb b'A' c && leb c b'Z')
    || (leb b'0' c && leb c b'9')
    || c == b'_'

-- What `$` matches: the end of the text, or the line feed before it.
abbrev pub at_end : Text → Bool
at_end [] = true
at_end (c ∷ []) = c == 10
at_end (c ∷ d ∷ s) = false

-- `[a-zA-Z0-9_]{least,most}$`
unfoldable pub matches_run : ℕ → ℕ → Text → Bool
matches_run least most [] = least == 0
matches_run zero most (c ∷ s) =
    let more = matches_run zero (pred most) s in
    at_end (c ∷ s) || (is_handle_char c && not (most == 0) && more)
matches_run (suc least) most (c ∷ s) =
    let more = matches_run least (pred most) s in is_handle_char c && not (most == 0) && more

-- `HANDLE_PATTERN.match`
abbrev pub matches_handle : Text → Bool
matches_handle [] = false
matches_handle (c ∷ s) = c == b'@' && matches_run 4 15 s

abbrev pub handle_message : String
handle_message =
    "El handle debe empezar con @ y tener entre 4 y 15 caracteres, usando solo letras, números y guiones bajos"

unfoldable pub enforce_handle_format : Text → Checked
enforce_handle_format value =
    if not (matches_handle value) then invalid handle_message else valid (lower value)

-- The password is missing where it broke the policy.
unfoldable pub enforce_confirmation_matches : Text → Option Text → Checked
enforce_confirmation_matches value none = valid value
enforce_confirmation_matches value (some password) =
    if not (value == password) then invalid "Las contraseñas no coinciden" else valid value

-- `Field(min_length=5, max_length=16)` with the validator, of the handle in a registration.
unfoldable pub check_handle : Text → Checked
unfolding enforce_handle_format
check_handle value =
    if ltb (length value) 5 || ltb 16 (length value)
    then invalid "String should have between 5 and 16 characters"
    else enforce_handle_format value

-- `SubmitFeedbackRequest.message_must_have_text`, with the length that the field allows.
unfoldable pub check_message : Text → Checked
check_message value =
    if ltb 500 (length value)
    then invalid "String should have at most 500 characters"
    else if length (strip value) == 0
    then invalid "El mensaje no puede quedar vacío"
    else valid (strip value)

-- `BlockAccountRequest`: the reason is stripped before its length is looked at.
unfoldable pub check_reason : Text → Checked
check_reason value =
    if ltb (length (strip value)) 1 || ltb 500 (length (strip value))
    then invalid "String should have between 1 and 500 characters"
    else valid (strip value)
