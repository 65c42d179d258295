-- ===== src/Store/Searches/Pattern.antt =====
-- The pattern of a search matches exactly the texts that contain the fragment.
use udesa_x_users_api.Common.{
  ℕ, ◌≡◌, refl, Bool, true, false, ◌&&◌, [], ◌∷◌, ◌++◌, Text, ◌==◌, nat_eq, text_eq, beq_text,
  arith, if◌then◌else◌,
}
use udesa_x_users_api.Text.{lower_char}
use udesa_x_users_api.Store.Searches.{escape_like, some_suffix, ilike, pattern_of}

-- The text begins with the fragment, whatever the case of either.
abbrev pub begins : Text → Text → Bool
begins [] t = true
begins (c ∷ fragment) [] = false
begins (c ∷ fragment) (d ∷ t) = lower_char c == lower_char d && begins fragment t

-- The text contains the fragment, whatever the case of either.
abbrev pub contains : Text → Text → Bool
contains fragment t = some_suffix (begins fragment) t

abbrev escaped : ℕ → Text
escaped c =
    if c == b'\\'
    then b'\\' ∷ c ∷ []
    else if c == b'%'
    then b'\\' ∷ c ∷ []
    else if c == b'_'
    then b'\\' ∷ c ∷ []
    else c ∷ []

escape_like-cons :
    (c : ℕ) (fragment : Text) → escape_like (c ∷ fragment) ≡ escaped c ++ escape_like fragment
unfolding escape_like
escape_like-cons c fragment = ground arith

any_rest : (t : Text) → some_suffix (ilike false []) t ≡ true
unfolding beq_text
any_rest [] = refl
any_rest (d ∷ t) = ground (arith, any_rest t)

ilike-escape_like :
    (fragment t : Text) → ilike false (escape_like fragment ++ b'%' ∷ []) t ≡ begins fragment t
unfolding escape_like
ilike-escape_like [] t = any_rest t
ilike-escape_like (c ∷ fragment) [] = rw (escape_like-cons c fragment) (ground arith)
ilike-escape_like (c ∷ fragment) (d ∷ t) =
    rw (escape_like-cons c fragment) (ground (arith, ilike-escape_like fragment t))

some_suffix-same :
    (k l : Text → Bool) (t : Text) → ((s : Text) → k s ≡ l s) → some_suffix k t ≡ some_suffix l t
some_suffix-same k l [] same = same []
some_suffix-same k l (d ∷ t) same = cc (same (d ∷ t), some_suffix-same k l t same)

-- A row matches a search exactly where the column contains the fragment, whatever the case of either:
-- a `%`, a `_` or a `\` of the fragment matches itself and nothing else.
pub ilike-pattern_of :
    (fragment t : Text) → ilike false (pattern_of fragment) t ≡ contains fragment t
ilike-pattern_of fragment t =
    some_suffix-same (ilike false (escape_like fragment ++ b'%' ∷ [])) (begins fragment) t
      (ilike-escape_like fragment)
