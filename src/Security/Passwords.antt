-- ===== src/Security/Passwords.antt =====
-- A stored hash verifies the password that it was made from.
use udesa_x_users_api.Common.{ℕ, ◌≡◌, true, false, some, none, Text, arith}
use udesa_x_users_api.Platform.{Platform}
use udesa_x_users_api.Security.{verify_password}

module _ ⦃p : Platform⦄ where
  pub verify_password-hash :
      (n : ℕ) (password : Text) → verify_password password (some (p.argon2_hash n password)) ≡ true
  unfolding verify_password
  verify_password-hash n password =
      let (c, s, e) = p.hash-nonempty n password in ground (arith, e, p.verify-hash n password)

  pub verify_password-none : (password : Text) → verify_password password none ≡ false
  unfolding verify_password
  verify_password-none password = ground arith
