-- ===== src/Security.antt =====
-- src/users_api/app/security.py: passwords, random tokens and access tokens.
pub mod Passwords
use udesa_x_users_api.Common.{
  ℕ, ◌+◌, ◌*◌, ◌/◌, Bool, false, Option, none, some, [], ◌∷◌, Text, codes, is_some, if◌then◌else◌,
}
use udesa_x_users_api.Model.Account.{Role, ProfileVisibility, everyone, protected}
use udesa_x_users_api.Platform.{Platform, Decoded, second}
use udesa_x_users_api.World.Exec.{Action, pure, gets, draw, ◌>>=◌}

abbrev pub role_value : Role → Text
role_value Role.user = codes "user"
role_value Role.moderator = codes "moderator"
role_value Role.superadmin = codes "superadmin"

abbrev pub visibility_value : ProfileVisibility → Text
visibility_value everyone = codes "public"
visibility_value protected = codes "protected"

module _ ⦃p : Platform⦄ where
  unfoldable pub hash_password : Text → Action Text
  hash_password password = do n ← draw; pure (p.argon2_hash n password)

  -- Hashed when the module is imported, with the first value drawn.
  unfoldable pub dummy_hash : Text
  dummy_hash = p.argon2_hash 0 (codes "not-a-real-password")

  -- `password_hash or _DUMMY_HASH`: an empty text is false too.
  abbrev pub or_dummy : Option Text → Text
  or_dummy none = dummy_hash
  or_dummy (some []) = dummy_hash
  or_dummy (some (c ∷ s)) = c ∷ s

  unfoldable pub verify_password : Text → Option Text → Bool
  verify_password password password_hash =
      if p.argon2_verify (or_dummy password_hash) password then is_some password_hash else false

  unfoldable pub hash_token : Text → Text
  hash_token raw_token = p.sha256 raw_token

  unfoldable pub generate_emailed_token : Action Text
  generate_emailed_token = do n ← draw; pure (p.token_urlsafe 32 n)

  unfoldable pub generate_refresh_token : Action Text
  generate_refresh_token = do n ← draw; pure (p.token_urlsafe 32 n)

  unfoldable pub generate_temporary_password : Action Text
  generate_temporary_password = do n ← draw; pure (p.token_urlsafe 12 n)

  -- The instants are encoded as whole seconds.
  unfoldable pub issue_access_token :
      (subject : ℕ) (role handle profile_visibility : Text) (expires_in_minutes : ℕ) (issuer : Text)
      (issued_at : ℕ)
      → Action Text
  issue_access_token subject role handle profile_visibility expires_in_minutes issuer issued_at = do
    n ← draw
    pure (
        p.jwt_encode (record {
          iss = issuer;
          sub = subject;
          role = role;
          handle = handle;
          profile_visibility = profile_visibility;
          jti = p.uuid4 n;
          iat = issued_at / second;
          exp = (issued_at + expires_in_minutes * 60 * second) / second;
        }))

  unfoldable pub decode_access_token : Text → Text → Action Decoded
  decode_access_token token issuer = gets (λ w. p.jwt_decode w.clock issuer token)
