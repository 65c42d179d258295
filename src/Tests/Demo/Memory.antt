-- ===== src/Tests/Demo/Memory.antt =====
-- Redis as an association list.
use udesa_x_users_api.Common.{
  ◌≡◌, refl, Option, none, some, List, [], ◌∷◌, Text, ◌==◌, text_eq, if◌then◌else◌,
}
use udesa_x_users_api.Platform.{Entry}

abbrev pub Keys : Type 0
Keys = List (Text × Option Entry)

abbrev pub lookup : Keys → Text → Option Entry
lookup [] k = none
lookup ((j, e) ∷ s) k = if j == k then e else lookup s k

abbrev pub put_option : Text → Option Entry → Keys → Keys
put_option k e s = (k, e) ∷ s

abbrev pub put : Text → Entry → Keys → Keys
put k e s = put_option k (some e) s

abbrev pub remove : Text → Keys → Keys
remove k s = put_option k none s

pub lookup-put_option :
    (k j : Text) (e : Option Entry) (s : Keys)
    → lookup (put_option k e s) j ≡ (if k == j then e else lookup s j)
lookup-put_option k j e s = refl

pub lookup-put :
    (k j : Text) (e : Entry) (s : Keys)
    → lookup (put k e s) j ≡ (if k == j then some e else lookup s j)
lookup-put k j e s = refl

pub lookup-remove :
    (k j : Text) (s : Keys) → lookup (remove k s) j ≡ (if k == j then none else lookup s j)
lookup-remove k j s = refl
