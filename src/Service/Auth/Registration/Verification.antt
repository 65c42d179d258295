-- ===== src/Service/Auth/Registration/Verification.antt =====
-- Opening the link of a verification email, once and again.
use udesa_x_users_api.Common.{
  ℕ, ◌≡◌, refl, true, some, find?, map_where, find?-map_where, Text, ==_refl, nat_eq, arith,
}
use udesa_x_users_api.Model.Account.{User}
use udesa_x_users_api.Model.Token.{EmailVerificationToken, link_is_usable}
use udesa_x_users_api.Platform.{Platform}
use udesa_x_users_api.World.State.{World}
use udesa_x_users_api.World.Exec.{ok}
use udesa_x_users_api.Cache.RateLimiter.Window.{at_time}
use udesa_x_users_api.Store.Users
use udesa_x_users_api.Store.Users.{overwrite}
use udesa_x_users_api.Store.VerificationTokens
use udesa_x_users_api.Store.VerificationTokens.{mark_row}
use udesa_x_users_api.Security.{hash_token}
use udesa_x_users_api.Service.Auth.Registration.{verified, use_link, verify_found, verify_email}

module _ ⦃p : Platform⦄ (raw_token : Text) (w : World) where
  abbrev opened : EmailVerificationToken → User → World
  opened t user = record w {
    db = record w.db {
      users = map_where (Users.has_id user.id) (overwrite (verified user)) w.db.users;
      verification_tokens =
          map_where (VerificationTokens.has_id t.id) (mark_row w.clock) w.db.verification_tokens;
    };
  }

  opens :
      (t : EmailVerificationToken) (user : User)
      → find? (VerificationTokens.has_hash (hash_token raw_token)) w.db.verification_tokens ≡ some t
      → link_is_usable t w.clock ≡ true
      → find? (Users.has_id t.user_id) w.db.users ≡ some user
      → verify_email raw_token w ≡ (ok (verified user), opened t user)
  unfolding verify_email verify_found use_link VerificationTokens.find_by_hash
      VerificationTokens.mark_used Users.get Users.update link_is_usable
  opens t user found usable owner = ground (arith, found, usable, owner)

  opens_again :
      (t : EmailVerificationToken) (user : User) (later : ℕ)
      → find? (VerificationTokens.has_hash (hash_token raw_token)) w.db.verification_tokens ≡ some t
      → find? (Users.has_id t.user_id) w.db.users ≡ some user
      → verify_email raw_token (at_time later (opened t user))
        ≡ (ok (verified user), at_time later (opened t user))
  unfolding verify_email verify_found use_link VerificationTokens.find_by_hash Users.get overwrite
  opens_again t user later found owner = ground (
    arith,
    found,
    owner,
    find?-map_where (VerificationTokens.has_hash (hash_token raw_token))
        (VerificationTokens.has_id t.id) (mark_row w.clock) w.db.verification_tokens (λ x. refl),
    find?-map_where (Users.has_id t.user_id) (Users.has_id user.id) (overwrite (verified user))
        w.db.users (λ x. refl),
    ==_refl t.id,
    ==_refl user.id,
  )

  -- A usable link of a stored account verifies it, and opening the same link again, at any time,
  -- answers the same and changes nothing more.
  pub verify_email-again :
      (t : EmailVerificationToken) (user : User) (later : ℕ)
      → find? (VerificationTokens.has_hash (hash_token raw_token)) w.db.verification_tokens ≡ some t
      → link_is_usable t w.clock ≡ true
      → find? (Users.has_id t.user_id) w.db.users ≡ some user
      → let (r, w') = verify_email raw_token w in
        (r ≡ ok (verified user))
        × (verify_email raw_token (at_time later w') ≡ (ok (verified user), at_time later w'))
  verify_email-again t user later found usable owner =
      rw (opens t user found usable owner) (refl, opens_again t user later found owner)
