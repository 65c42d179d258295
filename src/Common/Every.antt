-- ===== src/Common/Every.antt =====
-- A predicate of every row, after a search, an UPDATE or an INSERT.
use mathlib.Core.Bool.{Bool, true, false}
use mathlib.Core.List.{List, [], ◌∷◌, ◌++◌}
use mathlib.Core.Option.{Option, none, some}
use udesa_x_users_api.Common.Tests.{if◌then◌else◌}
use udesa_x_users_api.Common.Lists.{All, find?, map_where}

-- The predicate of the value, if there is one.
abbrev pub Found {ℓ κ} : {A : Type ℓ} → (A → Type κ) → Option A → Type κ
Found Q (some a) = Q a
Found Q none = Unit

module _ {ℓ κ} {A : Type ℓ} (P : A → Type κ) where
  pub All-map_where :
      (q : A → Bool) (f : A → A) (xs : List A)
      → ((x : A) → P x → P (f x))
      → All P xs
      → All P (map_where q f xs)
  All-map_where q f [] step h = tt
  All-map_where q f (x ∷ xs) step h = (at (q x), All-map_where q f xs step h.1)
    where
      at : (b : Bool) → P (if b then f x else x)
      at true = step x h.0
      at false = h.0

  pub All-append : (xs : List A) (y : A) → All P xs → P y → All P (xs ++ y ∷ [])
  All-append [] y h hy = (hy, tt)
  All-append (x ∷ xs) y h hy = (h.0, All-append xs y h.1 hy)

  pub Found-find? : (q : A → Bool) (xs : List A) → All P xs → Found P (find? q xs)
  Found-find? q [] h = tt
  Found-find? q (x ∷ xs) h = at (q x) (Found-find? q xs h.1)
    where
      at : (b : Bool) → Found P (find? q xs) → Found P (if b then some x else find? q xs)
      at true rest = h.0
      at false rest = rest

  pub All-join : (xs ys : List A) → All P xs → All P ys → All P (xs ++ ys)
  All-join [] ys h hy = hy
  All-join (x ∷ xs) ys h hy = (h.0, All-join xs ys h.1 hy)
