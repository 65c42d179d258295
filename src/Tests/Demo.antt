-- ===== src/Tests/Demo.antt =====
-- A platform that meets the assumed laws: Redis as an association list, salted texts for hashes, and
-- access tokens that spell their claims out.
mod Memory
mod Jwt
unfoldable pub use Memory.{Keys, lookup, put, remove}
unfoldable pub use Jwt.{encode, decode}
use udesa_x_users_api.Common.{
  text_eq, ℕ, ◌+◌, ◌≡◌, refl, Bool, true, false, Option, none, some, List, [], ◌∷◌, Text, ==_refl,
  beq_text, beq_ℕ,
}
use udesa_x_users_api.Platform.{Platform, Entry, live, incremented, with_deadline}
use udesa_x_users_api.Config.{Settings, default_settings}
use udesa_x_users_api.World.State.{Database, World}
use Memory.{put_option, lookup-put, lookup-put_option, lookup-remove}
use Jwt.{decode-encode}

abbrev incr : ℕ → Text → Keys → Keys
incr now k s = put k (incremented (live now (lookup s k))) s

abbrev expire : ℕ → Text → ℕ → Keys → Keys
expire now k t s = put_option k (with_deadline t (live now (lookup s k))) s

abbrev set_ex : ℕ → Text → ℕ → ℕ → Keys → Keys
set_ex now k v t s = put k (record { value = v; deadline = some t }) s

-- The salt and the password.
abbrev salted : ℕ → Text → Text
salted n password = (n + 1) ∷ password

abbrev matches : Text → Text → Bool
matches [] password = false
matches (n ∷ hashed) password = beq_text hashed password

pub matches-salted : (n : ℕ) (password : Text) → matches (salted n password) password ≡ true
matches-salted n password = ==_refl password

instance abbrev pub demo : Platform
demo = record {
  Keyspace = Keys;
  entry = lookup;
  incr = incr;
  expire = expire;
  set_ex = set_ex;
  delete = remove;
  entry-incr = λ now k j s. lookup-put k j _ s;
  entry-expire = λ now k t j s. lookup-put_option k j _ s;
  entry-set_ex = λ now k v t j s. lookup-put k j _ s;
  entry-delete = λ k j s. lookup-remove k j s;
  uuid4 = λ n. n;
  token_urlsafe = λ nbytes n. (n + 1) ∷ [];
  sha256 = λ s. s;
  argon2_hash = salted;
  argon2_verify = matches;
  verify-hash = matches-salted;
  hash-nonempty = λ n password. (n + 1, password, refl);
  jwt_encode = encode;
  jwt_decode = decode;
  decode-encode = decode-encode;
}

abbrev pub settings : Settings
settings = record (default_settings (9 ∷ [])) { jwt_issuer = 1 ∷ []; public_base_url = [] }

abbrev pub no_rows : Database
no_rows = record {
  users = [];
  verification_tokens = [];
  reset_tokens = [];
  refresh_tokens = [];
  outbox = [];
  feedback = [];
  audit_log = [];
}

-- The first value of randomness went into the dummy hash.
abbrev pub empty_world : World
empty_world = record { db = no_rows; redis = []; clock = 1000000000; drawn = 1 }
