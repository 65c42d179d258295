-- ===== src/Api/Server/Routes/Internal.antt =====
-- Each route of the other services keeps the accounts and the tokens consistent.
use udesa_x_users_api.Common.{ℕ}
use udesa_x_users_api.Config.{Settings}
use udesa_x_users_api.Platform.{Platform}
use udesa_x_users_api.World.Ensures.{Keeps, ◌▹◌, pure-Keeps}
use udesa_x_users_api.Api.Bodies.{Libraries, Headers}
use udesa_x_users_api.Api.Replies.{no_content, public_profile, identity, public_profile_response}
use udesa_x_users_api.Api.Routes.Internal
use udesa_x_users_api.Api.Server.Callers.{internal-Keeps}
use udesa_x_users_api.Api.Server.Reads.{public_profile-Keeps}
use udesa_x_users_api.Integrity.{IsConsistent}
use udesa_x_users_api.Integrity.Administration.{
  administrator-Keeps, lift_review-Keeps, put_under_review-Keeps,
}

module _ ⦃p : Platform⦄ (lib : Libraries) (settings : Settings) (headers : Headers) where
  pub put_under_review_call-Keeps :
      (id : ℕ) → Keeps IsConsistent (Internal.put_under_review settings headers id)
  unfolding Internal.put_under_review
  put_under_review_call-Keeps id = internal-Keeps settings headers.internal_token ▹ λ _ _.
      put_under_review-Keeps settings id ▹ λ _ _. pure-Keeps no_content

  pub lift_review_call-Keeps :
      (id : ℕ) → Keeps IsConsistent (Internal.lift_review settings headers id)
  unfolding Internal.lift_review
  lift_review_call-Keeps id = internal-Keeps settings headers.internal_token ▹ λ _ _.
      lift_review-Keeps id ▹ λ _ _. pure-Keeps no_content

  pub get_public_profile_call-Keeps :
      (id : ℕ) → Keeps IsConsistent (Internal.get_public_profile settings headers id)
  unfolding Internal.get_public_profile
  get_public_profile_call-Keeps id = internal-Keeps settings headers.internal_token ▹ λ _ _.
      public_profile-Keeps id ▹ λ user _. pure-Keeps (public_profile (public_profile_response user))

  pub administrator_identity_call-Keeps :
      (id : ℕ) → Keeps IsConsistent (Internal.administrator_identity settings headers id)
  unfolding Internal.administrator_identity
  administrator_identity_call-Keeps id = internal-Keeps settings headers.internal_token ▹ λ _ _.
      administrator-Keeps id ▹ λ actor _.
      pure-Keeps (identity (record { id = actor.id; email = actor.email }))
