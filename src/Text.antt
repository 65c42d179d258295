-- ===== src/Text.antt =====
-- The methods of Python's `str` that the source uses, on lists of code points. Case and digits are
-- those of Latin-1: a code point above 255 has no case here and is no digit.
pub mod Laws
pub mod Uuid
pub mod Calendar
pub mod Base64
pub mod Iso
use udesa_x_users_api.Common.{
  ℕ, ◌+◌, Bool, true, false, not, ◌&&◌, ◌||◌, List, [], ◌∷◌, ◌++◌, map, Text, ◌==◌, nat_eq, text_eq,
  leb, beq_text, if◌then◌else◌,
}

-- `str.isspace` of one character.
unfoldable pub is_space : ℕ → Bool
is_space c =
    (leb 9 c && leb c 13)
    || (leb 28 c && leb c 32)
    || c == 133
    || c == 160
    || c == 5760
    || (leb 8192 c && leb c 8202)
    || c == 8232
    || c == 8233
    || c == 8239
    || c == 8287
    || c == 12288

unfoldable pub is_upper : ℕ → Bool
is_upper c = (leb b'A' c && leb c b'Z') || (leb 192 c && leb c 222 && not (c == 215))

unfoldable pub is_digit : ℕ → Bool
is_digit c = (leb b'0' c && leb c b'9') || c == 178 || c == 179 || c == 185

unfoldable pub lower_char : ℕ → ℕ
unfolding is_upper
lower_char c = if is_upper c then c + 32 else c

unfoldable pub lower : Text → Text
unfolding lower_char
lower = map lower_char

unfoldable pub lstrip_where : (ℕ → Bool) → Text → Text
lstrip_where p [] = []
lstrip_where p (c ∷ s) = let rest = lstrip_where p s in if p c then rest else c ∷ s

-- What is left of a text and the character before it, once the end of the text is stripped.
abbrev pub cons_rstrip : (ℕ → Bool) → ℕ → Text → Text
cons_rstrip p c [] = if p c then [] else c ∷ []
cons_rstrip p c (d ∷ s) = c ∷ d ∷ s

unfoldable pub rstrip_where : (ℕ → Bool) → Text → Text
rstrip_where p [] = []
rstrip_where p (c ∷ s) = cons_rstrip p c (rstrip_where p s)

unfoldable pub strip : Text → Text
unfolding is_space lstrip_where rstrip_where
strip s = rstrip_where is_space (lstrip_where is_space s)

-- `s.strip().lower()`
unfoldable pub normalise : Text → Text
unfolding strip lower
normalise s = lower (strip s)

unfoldable pub starts_with : Text → Text → Bool
starts_with s [] = true
starts_with [] (d ∷ t) = false
starts_with (c ∷ s) (d ∷ t) = c == d && starts_with s t

unfoldable pub ends_with : Text → Text → Bool
ends_with [] t = beq_text [] t
ends_with (c ∷ s) t = beq_text (c ∷ s) t || ends_with s t
