-- ===== src/Common/Updates.antt =====
-- Searching a list of rows after an UPDATE or an INSERT.
use mathlib.Core.Option
use udesa_x_users_api.Common.Tests.{if◌then◌else◌, is_some}
use udesa_x_users_api.Common.Lists.{any, all, find?, map_where}
use mathlib.Core.Path.{◌≡◌, refl, fun_ext}
use mathlib.Core.Bool.{Bool, true, false, ◌||◌}
use mathlib.Core.List.{List, [], ◌∷◌, ◌++◌}
use mathlib.Core.Option.{Option, none, some}
use native.Mathlib.Omega.{arith}

module _ {ℓ} {A : Type ℓ} where
  -- `f` at a value that passes the test.
  abbrev pub at_where : (A → Bool) → (A → A) → A → A
  at_where p f x = if p x then f x else x

  pub find?-map_where :
      (q p : A → Bool) (f : A → A) (xs : List A)
      → ((x : A) → q (f x) ≡ q x)
      → find? q (map_where p f xs) ≡ Option.map (at_where p f) (find? q xs)
  find?-map_where q p f [] same = refl
  find?-map_where q p f (x ∷ xs) same = ground (arith, same x, find?-map_where q p f xs same)

  pub any-map_where :
      (q p : A → Bool) (f : A → A) (xs : List A)
      → ((x : A) → q (f x) ≡ q x)
      → any q (map_where p f xs) ≡ any q xs
  any-map_where q p f [] same = refl
  any-map_where q p f (x ∷ xs) same = ground (arith, same x, any-map_where q p f xs same)

  -- An UPDATE that takes its rows out of its own condition leaves none in it.
  pub any-map_where_self :
      (p : A → Bool) (f : A → A) (xs : List A)
      → ((x : A) → p (f x) ≡ false)
      → any p (map_where p f xs) ≡ false
  any-map_where_self p f [] out = refl
  any-map_where_self p f (x ∷ xs) out = ground (arith, out x, any-map_where_self p f xs out)

  pub map_where-none :
      (p : A → Bool) (f : A → A) (xs : List A) → find? p xs ≡ none → map_where p f xs ≡ xs
  map_where-none p f [] h = refl
  map_where-none p f (x ∷ xs) h = ground (arith, map_where-none p f xs)

  pub find?-append :
      (q : A → Bool) (xs ys : List A)
      → find? q (xs ++ ys) ≡ (if is_some (find? q xs) then find? q xs else find? q ys)
  find?-append q [] ys = refl
  find?-append q (x ∷ xs) ys = ground (arith, find?-append q xs ys)

  pub any-append : (q : A → Bool) (xs ys : List A) → any q (xs ++ ys) ≡ (any q xs || any q ys)
  any-append q [] ys = refl
  any-append q (x ∷ xs) ys = ground (arith, any-append q xs ys)

  pub is_some-find? : (q : A → Bool) (xs : List A) → is_some (find? q xs) ≡ any q xs
  is_some-find? q [] = refl
  is_some-find? q (x ∷ xs) = ground (arith, is_some-find? q xs)

  pub find?-eq_some : (q : A → Bool) (xs : List A) (x : A) → find? q xs ≡ some x → q x ≡ true
  find?-eq_some q [] x h = cc
  find?-eq_some q (y ∷ xs) x h = ground (arith, find?-eq_some q xs x)

  pub find?-none : (q : A → Bool) (xs : List A) → any q xs ≡ false → find? q xs ≡ none
  find?-none q [] h = refl
  find?-none q (x ∷ xs) h = ground (arith, find?-none q xs)

  -- What is found passes every test that all elements pass.
  pub find?-all :
      (r q : A → Bool) (xs : List A) (x : A) → all r xs ≡ true → find? q xs ≡ some x → r x ≡ true
  find?-all r q [] x h e = cc
  find?-all r q (y ∷ xs) x h e = ground (arith, find?-all r q xs x)

  -- No element of the rest agrees with an earlier one.
  abbrev pub AllApart : (A → A → Bool) → List A → Type 0
  AllApart same [] = Unit
  AllApart same (x ∷ xs) = (any (same x) xs ≡ false) × AllApart same xs

  pub AllApart-map_where :
      (same : A → A → Bool) (p : A → Bool) (f : A → A) (xs : List A)
      → ((x y : A) → same (f x) y ≡ same x y)
      → ((x y : A) → same x (f y) ≡ same x y)
      → AllApart same xs
      → AllApart same (map_where p f xs)
  AllApart-map_where same p f [] left right h = tt
  AllApart-map_where same p f (x ∷ xs) left right h =
      (any-at_where, AllApart-map_where same p f xs left right h.1)
    where
      any-left : any (same (f x)) (map_where p f xs) ≡ any (same x) xs
      any-left = rw (fun_ext (left x)) (any-map_where (same x) p f xs (right x))

      any-at_where : any (same (at_where p f x)) (map_where p f xs) ≡ false
      any-at_where = ground (arith, any-left, any-map_where (same x) p f xs (right x))

  pub AllApart-append :
      (same : A → A → Bool) (xs : List A) (y : A)
      → ((a b : A) → same a b ≡ same b a)
      → any (same y) xs ≡ false
      → AllApart same xs
      → AllApart same (xs ++ y ∷ [])
  AllApart-append same [] y symmetric new h = (refl, tt)
  AllApart-append same (x ∷ xs) y symmetric new h = (
    ground (arith, symmetric x y, any-append (same x) xs (y ∷ [])),
    AllApart-append same xs y symmetric (ground arith) h.1,
  )
