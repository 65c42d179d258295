-- ===== src/World/Ensures.antt =====
-- What an action leaves true of the tables, and of the value it returns.
use udesa_x_users_api.Common.{
  ◌≡◌, refl, Bool, true, false, Option, none, some, Found, if◌then◌else◌,
}
use udesa_x_users_api.Model.Problem.{Error}
use udesa_x_users_api.Platform.{Platform}
use udesa_x_users_api.World.State.{Database, World}
use udesa_x_users_api.World.Exec.{
  Result, ok, err, Action, raise_if, or_raise, attribute_of, utc_now, draw, on_db, on_redis, gets,
  raise, pure, ◌>>=◌,
}

-- `Q` of what was returned, if nothing was raised.
abbrev pub Returned : {A : Type 0} → (A → Type 0) → Result A → Type 0
Returned Q (ok a) = Q a
Returned Q (err e) = Unit

abbrev pub Anything : {A : Type 0} → A → Type 0
Anything a = Unit

pub anything : {A : Type 0} (r : Result A) → Returned Anything r
anything (ok a) = tt
anything (err e) = tt

module _ ⦃p : Platform⦄ where
  -- `m` keeps `P` of the tables, whether it returns or raises, and what it returns has `Q`.
  pub record Ensures {A : Type 0} (P : Database → Type 0) (Q : A → Type 0) (m : Action A)
      : Type 0 where
    pub at : (w : World) → P w.db → P (m w).1.db × Returned Q (m w).0

  abbrev pub Keeps : {A : Type 0} → (Database → Type 0) → Action A → Type 0
  Keeps P m = Ensures P Anything m

module _ ⦃p : Platform⦄ {P : Database → Type 0} where
  pub pure-Ensures : {A : Type 0} {Q : A → Type 0} (a : A) → Q a → Ensures P Q (pure a)
  pure-Ensures a q = record { at = λ w h. (h, q) }

  pub raise-Ensures : {A : Type 0} {Q : A → Type 0} (e : Error) → Ensures P Q (raise {A = A} e)
  raise-Ensures e = record { at = λ w h. (h, tt) }

  pub gets-Ensures :
      {A : Type 0} {Q : A → Type 0} (read : World → A)
      → ((w : World) → P w.db → Q (read w))
      → Ensures P Q (gets read)
  gets-Ensures read q = record { at = λ w h. (h, q w h) }

  pub pure-Keeps : {A : Type 0} (a : A) → Keeps P (pure a)
  pure-Keeps a = pure-Ensures a tt

  pub gets-Keeps : {A : Type 0} (read : World → A) → Keeps P (gets read)
  gets-Keeps read = record { at = λ w h. (h, tt) }

  pub or_raise-Ensures :
      {A : Type 0} {Q : A → Type 0} (o : Option A) (e : Error)
      → Found Q o
      → Ensures P Q (or_raise o e)
  or_raise-Ensures (some a) e q = pure-Ensures a q
  or_raise-Ensures none e q = raise-Ensures e

  pub or_raise-Keeps : {A : Type 0} (o : Option A) (e : Error) → Keeps P (or_raise o e)
  or_raise-Keeps (some a) e = pure-Keeps a
  or_raise-Keeps none e = raise-Ensures e

  pub attribute_of-Ensures :
      {A : Type 0} {Q : A → Type 0} (o : Option A) → Found Q o → Ensures P Q (attribute_of o)
  attribute_of-Ensures (some a) q = pure-Ensures a q
  attribute_of-Ensures none q = raise-Ensures Error.attribute_error

  pub raise_if-Ensures : (test : Bool) (e : Error) → Ensures P (λ _. test ≡ false) (raise_if test e)
  raise_if-Ensures true e = record { at = λ w h. (h, tt) }
  raise_if-Ensures false e = record { at = λ w h. (h, refl) }

  pub raise_if-Keeps : (test : Bool) (e : Error) → Keeps P (raise_if test e)
  raise_if-Keeps true e = record { at = λ w h. (h, tt) }
  raise_if-Keeps false e = record { at = λ w h. (h, tt) }

  pub if-Ensures :
      {A : Type 0} {Q : A → Type 0} (b : Bool) {m n : Action A}
      → (b ≡ true → Ensures P Q m)
      → (b ≡ false → Ensures P Q n)
      → Ensures P Q (if b then m else n)
  if-Ensures true hm hn = hm refl
  if-Ensures false hm hn = hn refl

  pub bind-Ensures :
      {A B : Type 0} {Q : A → Type 0} {R : B → Type 0} (m : Action A) (f : A → Action B)
      → Ensures P Q m
      → ((a : A) → Q a → Ensures P R (f a))
      → Ensures P R (m >>= f)
  bind-Ensures {A} {B} {Q} {R} m f hm hf = record {
    at = λ w h. let (h', q) = hm.at w h in rest (m w).0 (m w).1 h' q;
  }
    where
      rest :
          (r : Result A) (w' : World)
          → P w'.db
          → Returned Q r
          → P (let z : Result B × World = elim r [ ok a ↦ f a w' | err e ↦ (err e, w') ] in z.1.db)
            × Returned R
                (let z : Result B × World = elim r [ ok a ↦ f a w' | err e ↦ (err e, w') ] in z.0)
      rest (ok a) w' h q = (hf a q).at w' h
      rest (err e) w' h q = (h, tt)

  -- The rule of a sequence, between what is known of its parts.
  infixr 5 ◌▹◌
  abbrev pub ◌▹◌ :
      {A B : Type 0} {Q : A → Type 0} {R : B → Type 0} {m : Action A} {f : A → Action B}
      → Ensures P Q m
      → ((a : A) → Q a → Ensures P R (f a))
      → Ensures P R (m >>= f)
  hm ▹ hf = bind-Ensures _ _ hm hf

  -- A weaker claim on what is returned.
  pub weaken-Ensures :
      {A : Type 0} {Q R : A → Type 0} (m : Action A)
      → Ensures P Q m
      → ((a : A) → Q a → R a)
      → Ensures P R m
  weaken-Ensures {A} {Q} {R} m hm weaker = record {
    at = λ w h. let (h', q) = hm.at w h in (h', weak (m w).0 q);
  }
    where
      weak : (r : Result A) → Returned Q r → Returned R r
      weak (ok a) q = weaker a q
      weak (err e) q = tt

-- Actions that leave the tables as they are.
module _ ⦃p : Platform⦄ {P : Database → Type 0} where
  pub utc_now-Keeps : Keeps P utc_now
  utc_now-Keeps = record { at = λ w h. (h, tt) }

  pub draw-Keeps : Keeps P draw
  draw-Keeps = record { at = λ w h. (h, tt) }

  pub on_redis-Keeps : (f : p.Keyspace → p.Keyspace) → Keeps P (on_redis f)
  on_redis-Keeps f = record { at = λ w h. (h, tt) }

  pub on_db-Keeps :
      (f : Database → Database) → ((db : Database) → P db → P (f db)) → Keeps P (on_db f)
  on_db-Keeps f keep = record { at = λ w h. (keep w.db h, tt) }
