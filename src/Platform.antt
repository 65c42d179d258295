-- ===== src/Platform.antt =====
-- What the service stands on and does not implement: Redis, argon2, PyJWT, SHA-256 and the source of
-- randomness. Each is a set of operations with the documented laws that the code relies on.
use udesa_x_users_api.Common.{
  ℕ, suc, ◌*◌, ◌≤◌, ◌≡◌, Bool, true, Option, none, some, ◌∷◌, Text, ◌==◌, text_eq, leb, ltb,
  if◌then◌else◌,
}

abbrev pub second : ℕ
second = 1000000

-- The claims of an access token. `iat` and `exp` are whole seconds.
pub record Claims : Type 0 where
  pub iss : Text
  pub sub : ℕ
  pub role : Text
  pub handle : Text
  pub profile_visibility : Text
  pub jti : ℕ
  pub iat : ℕ
  pub exp : ℕ

-- `jwt.decode`: the claims, `ExpiredSignatureError`, or any other `InvalidTokenError`.
pub data Decoded : Type 0 where
  valid : Claims → Decoded
  expired_signature : Decoded
  invalid_token : Decoded

-- A Redis key holds a number, and may have an instant at which it stops existing.
pub record Entry : Type 0 where
  pub value : ℕ
  pub deadline : Option ℕ

abbrev pub entry_alive : ℕ → Entry → Bool
entry_alive now e = elim e.deadline [ none ↦ true | some t ↦ ltb now t ]

abbrev pub live : ℕ → Option Entry → Option Entry
live now none = none
live now (some e) = if entry_alive now e then some e else none

-- INCR: a missing key counts from zero, and an existing one keeps its deadline.
abbrev pub incremented : Option Entry → Entry
incremented none = record { value = 1; deadline = none }
incremented (some e) = record { value = suc e.value; deadline = e.deadline }

abbrev pub with_deadline : ℕ → Option Entry → Option Entry
with_deadline t none = none
with_deadline t (some e) = some (record { value = e.value; deadline = some t })

pub record Platform : Type 1 where
  -- The contents of Redis, seen through `entry`. Each command takes the time at which it runs.
  pub Keyspace : Type 0
  pub entry : Keyspace → Text → Option Entry
  pub incr : ℕ → Text → Keyspace → Keyspace
  pub expire : ℕ → Text → ℕ → Keyspace → Keyspace
  pub set_ex : ℕ → Text → ℕ → ℕ → Keyspace → Keyspace
  pub delete : Text → Keyspace → Keyspace
  pub entry-incr :
      (now : ℕ) (k j : Text) (s : Keyspace)
      → entry (incr now k s) j
        ≡ (if k == j then some (incremented (live now (entry s k))) else entry s j)
  pub entry-expire :
      (now : ℕ) (k : Text) (t : ℕ) (j : Text) (s : Keyspace)
      → entry (expire now k t s) j
        ≡ (if k == j then with_deadline t (live now (entry s k)) else entry s j)
  pub entry-set_ex :
      (now : ℕ) (k : Text) (v t : ℕ) (j : Text) (s : Keyspace)
      → entry (set_ex now k v t s) j
        ≡ (if k == j then some (record { value = v; deadline = some t }) else entry s j)
  pub entry-delete :
      (k j : Text) (s : Keyspace) → entry (delete k s) j ≡ (if k == j then none else entry s j)
  -- `uuid.uuid4()` and `secrets.token_urlsafe(nbytes)`, where the n-th value is drawn.
  pub uuid4 : ℕ → ℕ
  pub token_urlsafe : (nbytes : ℕ) → ℕ → Text
  -- The hex digest of SHA-256.
  pub sha256 : Text → Text
  -- `PasswordHasher().hash`, whose salt is the n-th value drawn, and `verify`, which is `true` where
  -- it does not raise.
  pub argon2_hash : ℕ → Text → Text
  pub argon2_verify : Text → Text → Bool
  pub verify-hash :
      (n : ℕ) (password : Text) → argon2_verify (argon2_hash n password) password ≡ true
  pub hash-nonempty :
      (n : ℕ) (password : Text) → (c : ℕ) × (s : Text) × (argon2_hash n password ≡ c ∷ s)
  -- `jwt.encode` and `jwt.decode` under the service's key.
  pub jwt_encode : Claims → Text
  pub jwt_decode : ℕ → Text → Text → Decoded
  pub decode-encode :
      (now : ℕ) (issuer : Text) (c : Claims)
      → c.iat * second ≤ now
      → jwt_decode now issuer (jwt_encode c) ≡ (
          if leb (c.exp * second) now
          then expired_signature
          else if c.iss == issuer
          then valid c
          else invalid_token)
