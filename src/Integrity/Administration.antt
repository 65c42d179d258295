-- ===== src/Integrity/Administration.antt =====
-- What the backoffice and the other services do keeps the accounts and the tokens consistent.
use udesa_x_users_api.Common.{ℕ, ◌≡◌, not, ◌||◌, false, none, some, Text, is_some, ◌==◌, arith}
use udesa_x_users_api.Text.{normalise}
use udesa_x_users_api.Config.{Settings}
use udesa_x_users_api.Model.Account.{
  Role, User, role_eq, status_eq, active, suspended, under_review, is_administrator, is_deleted,
  change_status,
}
use udesa_x_users_api.Model.Event.{
  AuditAction, AuditDetails, admin_created, temporary_password_reset, user_blocked, no_details,
  details_email, details_reason,
}
use udesa_x_users_api.Model.Problem.{problem}
use udesa_x_users_api.Platform.{Platform}
use udesa_x_users_api.World.Ensures.{
  Keeps, ◌▹◌, raise_if-Keeps, raise_if-Ensures, if-Ensures, pure-Keeps, utc_now-Keeps, draw-Keeps,
  or_raise-Ensures,
}
use udesa_x_users_api.Service.Auth.Login.{session_seconds}
use udesa_x_users_api.Service.Auth.Registration.{account_already_exists}
use udesa_x_users_api.Service.Audit.{administrator_not_found, administrator, record_action}
use udesa_x_users_api.Service.AccountBlock.{
  account_not_found, block_failed_title, administrator_cannot_be_blocked, suspend, block,
}
use udesa_x_users_api.Service.AccountReview.{freeze, put_under_review, lift_review}
use udesa_x_users_api.Service.Admins.{
  regeneration_failed_title, email_domain_not_allowed, password_already_chosen, seeded_superadmin,
  new_administrator, authorized_domain, is_outside, ensure_superadmin,
  deny_email_outside_the_authorized_domain, create_administrator, with_temporary_password,
  reset_temporary_password,
}
use udesa_x_users_api.Integrity.{IsSound, IsConsistent}
use udesa_x_users_api.Integrity.Statements.{
  get-Ensures, find_by_email-Ensures, update-Keeps, add-Ensures,
}
use udesa_x_users_api.Integrity.Tables.{add_entry-Keeps, revoke_all-Keeps}
use udesa_x_users_api.Integrity.Redis.{revoke_sessions-Keeps}
use udesa_x_users_api.Integrity.Guards.{hash_password-Keeps, temporary_password-Keeps}
use udesa_x_users_api.Integrity.Changes.{
  seeded_superadmin-IsSound, new_administrator-IsSound, suspended-IsSound, under_review-IsSound,
  active-IsSound, with_temporary_password-IsSound,
}
use udesa_x_users_api.Integrity.Accounts.{exists-Keeps}

module _ ⦃p : Platform⦄ where
  pub administrator-Keeps : (actor_id : ℕ) → Keeps IsConsistent (administrator actor_id)
  unfolding administrator
  administrator-Keeps actor_id = get-Ensures actor_id ▹ λ found sound.
      or_raise-Ensures found (problem administrator_not_found) sound ▹ λ actor _.
      raise_if-Keeps (not (is_administrator actor) || is_deleted actor)
        (problem administrator_not_found)
      ▹ λ _ _. pure-Keeps actor

  record_action-Keeps :
      (actor_id : ℕ) (action : AuditAction) (target_id : ℕ) (details : AuditDetails)
      → Keeps IsConsistent (record_action actor_id action target_id details)
  unfolding record_action
  record_action-Keeps actor_id action target_id details = administrator-Keeps actor_id ▹ λ actor _.
      draw-Keeps ▹ λ n _. utc_now-Keeps ▹ λ at _. add_entry-Keeps (record {
        id = p.uuid4 n;
        occurred_at = at;
        actor_id = actor.id;
        actor_email = actor.email;
        action = action;
        target_id = target_id;
        details = details;
      })

  pub ensure_superadmin-Keeps :
      (email handle password : Text) → Keeps IsConsistent (ensure_superadmin email handle password)
  unfolding ensure_superadmin
  ensure_superadmin-Keeps email handle password =
      find_by_email-Ensures (normalise email) ▹ λ found _.
      if-Ensures (is_some found) (λ _. pure-Keeps none)
        λ _. utc_now-Keeps ▹ λ at _. hash_password-Keeps password ▹ λ hash _.
          add-Ensures (seeded_superadmin (normalise email) (normalise handle) hash at)
            (seeded_superadmin-IsSound email handle hash at)
          ▹ λ user _. pure-Keeps (some user)

  pub create_administrator-Keeps :
      (settings : Settings) (actor_id : ℕ) (email handle : Text) (role : Role)
      → (role == Role.user) ≡ false
      → Keeps IsConsistent (create_administrator settings actor_id email handle role)
  unfolding create_administrator deny_email_outside_the_authorized_domain
  create_administrator-Keeps settings actor_id email handle role appointed =
      raise_if-Keeps (is_outside (authorized_domain settings) (normalise email))
        (problem (email_domain_not_allowed (authorized_domain settings)))
      ▹ λ _ _. exists-Keeps (normalise email) (normalise handle) ▹ λ taken _.
          raise_if-Keeps taken (problem account_already_exists) ▹ λ _ _.
          temporary_password-Keeps ▹ λ temporary_password _. utc_now-Keeps ▹ λ at _.
          hash_password-Keeps temporary_password ▹ λ hash _.
          add-Ensures (new_administrator (normalise email) (normalise handle) hash role at)
            (λ id created_at.
              new_administrator-IsSound email handle hash at id created_at role appointed)
          ▹ λ user _.
              record_action-Keeps actor_id admin_created user.id (details_email user.email) ▹ λ _ _.
              pure-Keeps (user, temporary_password)

  pub reset_temporary_password-Keeps :
      (user_id actor_id : ℕ) → Keeps IsConsistent (reset_temporary_password user_id actor_id)
  unfolding reset_temporary_password
  reset_temporary_password-Keeps user_id actor_id = get-Ensures user_id ▹ λ found sound.
      or_raise-Ensures found (problem (account_not_found regeneration_failed_title)) sound
      ▹ λ user known.
          raise_if-Ensures (not user.must_change_password) (problem password_already_chosen)
          ▹ λ _ due. temporary_password-Keeps ▹ λ temporary_password _.
              hash_password-Keeps temporary_password ▹ λ hash _. utc_now-Keeps ▹ λ at _.
              update-Keeps (with_temporary_password user hash at)
                (with_temporary_password-IsSound user known hash at (ground (arith, due)))
              ▹ λ _ _.
                  record_action-Keeps actor_id temporary_password_reset user.id no_details ▹ λ _ _.
                  pure-Keeps (with_temporary_password user hash at, temporary_password)

  pub lift_review-Keeps : (user_id : ℕ) → Keeps IsConsistent (lift_review user_id)
  unfolding lift_review
  lift_review-Keeps user_id = get-Ensures user_id ▹ λ found sound.
      or_raise-Ensures found (problem (account_not_found "No se pudo levantar la revisión")) sound
      ▹ λ user known.
          if-Ensures (not (user.status == under_review)) (λ _. pure-Keeps tt)
            λ _. utc_now-Keeps ▹ λ at _.
              update-Keeps (change_status user active at none) (active-IsSound user known at)

module _ ⦃p : Platform⦄ (settings : Settings) where
  pub put_under_review-Keeps :
      (user_id : ℕ) → Keeps IsConsistent (put_under_review settings user_id)
  unfolding put_under_review freeze
  put_under_review-Keeps user_id = get-Ensures user_id ▹ λ found sound.
      or_raise-Ensures found (problem (account_not_found "No se pudo poner la cuenta en revisión"))
        sound
      ▹ λ user known.
          if-Ensures (not (user.status == active)) (λ _. pure-Keeps tt)
            λ _. utc_now-Keeps ▹ λ at _.
              update-Keeps (change_status user under_review at none)
                (under_review-IsSound user known at)
              ▹ λ _ _. revoke_sessions-Keeps user.id at (session_seconds settings) ▹ λ _ _.
                  revoke_all-Keeps user.id at

  suspend-Keeps :
      (admin user : User) (reason : Text)
      → IsSound user
      → is_administrator user ≡ false
      → Keeps IsConsistent (suspend settings admin user reason)
  unfolding suspend
  suspend-Keeps admin user reason sound plain = utc_now-Keeps ▹ λ at _.
      update-Keeps (change_status user suspended at (some reason))
        (suspended-IsSound user sound at reason plain)
      ▹ λ _ _. record_action-Keeps admin.id user_blocked user.id (details_reason reason) ▹ λ _ _.
          revoke_all-Keeps user.id at ▹ λ _ _.
          revoke_sessions-Keeps user.id at (session_seconds settings)

  pub block-Keeps :
      (admin : User) (user_id : ℕ) (reason : Text)
      → Keeps IsConsistent (block settings admin user_id reason)
  unfolding block
  block-Keeps admin user_id reason = get-Ensures user_id ▹ λ found sound.
      or_raise-Ensures found (problem (account_not_found block_failed_title)) sound ▹ λ user known.
      raise_if-Keeps (is_deleted user) (problem (account_not_found block_failed_title)) ▹ λ _ _.
      raise_if-Ensures (is_administrator user) (problem administrator_cannot_be_blocked)
      ▹ λ _ plain.
          if-Ensures (user.status == suspended) (λ _. pure-Keeps tt)
            λ _. suspend-Keeps admin user reason known plain
