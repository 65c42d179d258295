-- ===== src/World/Exec.antt =====
-- A handler: it reads and changes the world, and may raise. What it wrote before raising stays
-- written; undoing it is the transaction's work.
use udesa_x_users_api.Common.{ℕ, suc, Bool, Option, none, some, if◌then◌else◌}
use udesa_x_users_api.Platform.{Platform}
use udesa_x_users_api.Model.Problem.{Error}
use udesa_x_users_api.World.State.{Database, World}

pub data Result (A : Type 0) : Type 0 where
  ok : A → Result A
  err : Error → Result A

abbrev pub None : Type 0
None = Unit {0}

module _ ⦃p : Platform⦄ where
  abbrev pub Action : Type 0 → Type 0
  Action A = World → Result A × World

  -- `if test: raise ...`
  abbrev pub raise_if : Bool → Error → Action None
  raise_if test e w = (if test then err e else ok tt, w)

  abbrev pub modify : (World → World) → Action None
  modify change w = (ok tt, change w)

  -- The steps of a handler, one after the other: the first that raises is the last.
  abbrev pub ◌>>=◌ : {A B : Type 0} → Action A → (A → Action B) → Action B
  ◌>>=◌ first next w =
      let (outcome, after) = first w in
      elim outcome [ ok a ↦ next a after | err e ↦ (err e, after) ]

  abbrev pub ◌>>◌ : {A B : Type 0} → Action A → Action B → Action B
  first >> second = first >>= λ _. second

  infixl 5 ◌>>=◌ ◌>>◌
  abbrev pub gets : {A : Type 0} → (World → A) → Action A
  gets read w = (ok (read w), w)

  abbrev pub raise : {A : Type 0} → Error → Action A
  raise e w = (err e, w)

  abbrev pub pure : {A : Type 0} → A → Action A
  pure a w = (ok a, w)

  abbrev pub or_raise : {A : Type 0} → Option A → Error → Action A
  or_raise (some a) e = pure a
  or_raise none e = raise e

  -- The value of an `Optional` where the code reads an attribute of it without asking.
  abbrev pub attribute_of : {A : Type 0} → Option A → Action A
  attribute_of none = raise Error.attribute_error
  attribute_of (some a) = pure a

  -- `datetime.now(UTC)`
  abbrev pub utc_now : Action ℕ
  utc_now w = (ok w.clock, w)

  -- The next value of the source of randomness, by its position.
  abbrev pub draw : Action ℕ
  draw w = (ok w.drawn, record w { drawn = suc w.drawn })

  abbrev pub on_db : (Database → Database) → Action None
  on_db f w = (ok tt, record w { db = f w.db })

  abbrev pub on_redis : (p.Keyspace → p.Keyspace) → Action None
  on_redis f w = (ok tt, record w { redis = f w.redis })
