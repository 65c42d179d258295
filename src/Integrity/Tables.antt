-- ===== src/Integrity/Tables.antt =====
-- The other tables and Redis: what is written there leaves the accounts consistent.
use udesa_x_users_api.Common.{
  ℕ, suc, ◌≡◌, refl, Bool, none, [], ◌∷◌, ◌++◌, Text, any, ◌==◌, arith, nat_eq, text_eq, ◌||◌,
}
use udesa_x_users_api.Model.Event.{Event, Feedback, AuditEntry, Payload}
use udesa_x_users_api.Model.Problem.{integrity_error}
use udesa_x_users_api.Model.Token.{EmailVerificationToken, PasswordResetToken}
use udesa_x_users_api.Platform.{Platform}
use udesa_x_users_api.World.State.{Database, World}
use udesa_x_users_api.World.Ensures.{
  anything, ◌▹◌, gets-Keeps, Keeps, on_db-Keeps, raise_if-Ensures,
}
use udesa_x_users_api.World.Exec.{gets, on_db, raise_if, ◌>>=◌, ◌>>◌}
use udesa_x_users_api.Store.VerificationTokens
use udesa_x_users_api.Store.ResetTokens
use udesa_x_users_api.Store.RefreshTokens
use udesa_x_users_api.Store.RefreshTokens.Once.{
  Statement, step, step-HashesApart, adds, consumes, revokes_family, revokes_all,
}
use udesa_x_users_api.Store.Records.{build_event, add_event, add_feedback, add_entry}
use udesa_x_users_api.Integrity.{IsConsistent}

module _ ⦃p : Platform⦄ where
  -- A statement on any other table.
  other_table-Keeps :
      (f : Database → Database)
      → ((db : Database) → (f db).users ≡ db.users)
      → ((db : Database) → (f db).refresh_tokens ≡ db.refresh_tokens)
      → Keeps IsConsistent (on_db f)
  other_table-Keeps f users tokens = on_db-Keeps f λ db h. record {
    apart = rw (users db) h.apart;
    sound = rw (users db) h.sound;
    tokens = rw (tokens db) h.tokens;
  }

  -- A row whose unique columns may repeat: it is added to another table, or not at all.
  insert-Keeps :
      (test : Database → Bool) (f : Database → Database)
      → ((db : Database) → (f db).users ≡ db.users)
      → ((db : Database) → (f db).refresh_tokens ≡ db.refresh_tokens)
      → Keeps IsConsistent (gets (λ w. test w.db) >>= λ b. raise_if b integrity_error >> on_db f)
  insert-Keeps test f users tokens = gets-Keeps (λ w. test w.db) ▹ λ b _.
      raise_if-Ensures b integrity_error ▹ λ _ _. other_table-Keeps f users tokens

  pub build_event-Keeps : (payload : Payload) (at : ℕ) → Keeps IsConsistent (build_event payload at)
  unfolding build_event
  build_event-Keeps payload at = record { at = λ w h. (h, tt) }

  pub add_event-Keeps : (event : Event) → Keeps IsConsistent (add_event event)
  unfolding add_event
  add_event-Keeps event = record {
    at = λ w h.
        (insert-Keeps (λ db. any (λ r. r.event.id == event.id) db.outbox)
            (λ db. record db {
              outbox = db.outbox ++ record { event = event; created_at = w.clock } ∷ [];
            })
            (λ db. refl) (λ db. refl)).at
          w h;
  }

  pub add_feedback-Keeps : (feedback : Feedback) → Keeps IsConsistent (add_feedback feedback)
  unfolding add_feedback
  add_feedback-Keeps feedback = record {
    at = λ w h.
        (insert-Keeps (λ db. any (λ r. r.id == feedback.id) db.feedback)
            (λ db. record db { feedback = db.feedback ++ feedback ∷ [] }) (λ db. refl)
            (λ db. refl)).at
          w h;
  }

  pub add_entry-Keeps : (entry : AuditEntry) → Keeps IsConsistent (add_entry entry)
  unfolding add_entry
  add_entry-Keeps entry = other_table-Keeps _ (λ db. refl) (λ db. refl)

  pub VerificationTokens_add-Keeps :
      (user_id : ℕ) (token_hash : Text) (expires_at : ℕ)
      → Keeps IsConsistent (VerificationTokens.add user_id token_hash expires_at)
  unfolding VerificationTokens.add
  VerificationTokens_add-Keeps user_id token_hash expires_at = record {
    at = λ w h.
        let row : EmailVerificationToken = record {
          id = p.uuid4 w.drawn;
          user_id = user_id;
          token_hash = token_hash;
          expires_at = expires_at;
          used_at = none;
        } in
        (insert-Keeps
            (λ db.
              any
                (λ r.
                  VerificationTokens.has_id row.id r || VerificationTokens.has_hash token_hash r)
                db.verification_tokens)
            (λ db. record db { verification_tokens = db.verification_tokens ++ row ∷ [] })
            (λ db. refl) (λ db. refl)).at
          (record w { drawn = suc w.drawn }) h;
  }

  pub VerificationTokens_mark_used-Keeps :
      (token_id used_at : ℕ) → Keeps IsConsistent (VerificationTokens.mark_used token_id used_at)
  unfolding VerificationTokens.mark_used
  VerificationTokens_mark_used-Keeps token_id used_at =
      other_table-Keeps _ (λ db. refl) (λ db. refl)

  pub VerificationTokens_find-Keeps :
      (token_hash : Text) → Keeps IsConsistent (VerificationTokens.find_by_hash token_hash)
  unfolding VerificationTokens.find_by_hash
  VerificationTokens_find-Keeps token_hash = gets-Keeps _

  pub ResetTokens_add-Keeps :
      (user_id : ℕ) (token_hash : Text) (expires_at : ℕ)
      → Keeps IsConsistent (ResetTokens.add user_id token_hash expires_at)
  unfolding ResetTokens.add
  ResetTokens_add-Keeps user_id token_hash expires_at = record {
    at = λ w h.
        let row : PasswordResetToken = record {
          id = p.uuid4 w.drawn;
          user_id = user_id;
          token_hash = token_hash;
          expires_at = expires_at;
          used_at = none;
        } in
        (insert-Keeps
            (λ db. any (λ r. r.id == row.id || ResetTokens.has_hash token_hash r) db.reset_tokens)
            (λ db. record db { reset_tokens = db.reset_tokens ++ row ∷ [] }) (λ db. refl)
            (λ db. refl)).at
          (record w { drawn = suc w.drawn }) h;
  }

  pub mark_all_used-Keeps :
      (user_id used_at : ℕ) → Keeps IsConsistent (ResetTokens.mark_all_used user_id used_at)
  unfolding ResetTokens.mark_all_used
  mark_all_used-Keeps user_id used_at = other_table-Keeps _ (λ db. refl) (λ db. refl)

  pub ResetTokens_find-Keeps :
      (token_hash : Text) → Keeps IsConsistent (ResetTokens.find_by_hash token_hash)
  unfolding ResetTokens.find_by_hash
  ResetTokens_find-Keeps token_hash = gets-Keeps _

  -- The statements on the refresh tokens.
  users-step : (s : Statement) (w : World) → (step s w).db.users ≡ w.db.users
  unfolding step RefreshTokens.add RefreshTokens.consume RefreshTokens.revoke_family
      RefreshTokens.revoke_all
  users-step (adds user_id family_id token_hash expires_at) w = ground arith
  users-step (consumes token_hash now) w = refl
  users-step (revokes_family id at) w = refl
  users-step (revokes_all id at) w = refl

  step-IsConsistent : (s : Statement) (w : World) → IsConsistent w.db → IsConsistent (step s w).db
  step-IsConsistent s w h = record {
    apart = rw (users-step s w) h.apart;
    sound = rw (users-step s w) h.sound;
    tokens = step-HashesApart s w h.tokens;
  }

  pub RefreshTokens_add-Keeps :
      (user_id family_id : ℕ) (token_hash : Text) (expires_at : ℕ)
      → Keeps IsConsistent (RefreshTokens.add user_id family_id token_hash expires_at)
  unfolding step
  RefreshTokens_add-Keeps user_id family_id token_hash expires_at = record {
    at = λ w h. (step-IsConsistent (adds user_id family_id token_hash expires_at) w h, anything _);
  }

  pub consume-Keeps :
      (token_hash : Text) (now : ℕ) → Keeps IsConsistent (RefreshTokens.consume token_hash now)
  unfolding step RefreshTokens.consume
  consume-Keeps token_hash now = record {
    at = λ w h. (step-IsConsistent (consumes token_hash now) w h, tt);
  }

  pub revoke_family-Keeps :
      (family_id at : ℕ) → Keeps IsConsistent (RefreshTokens.revoke_family family_id at)
  unfolding step RefreshTokens.revoke_family
  revoke_family-Keeps family_id at = record {
    at = λ w h. (step-IsConsistent (revokes_family family_id at) w h, tt);
  }

  pub revoke_all-Keeps : (user_id at : ℕ) → Keeps IsConsistent (RefreshTokens.revoke_all user_id at)
  unfolding step RefreshTokens.revoke_all
  revoke_all-Keeps user_id at = record {
    at = λ w h. (step-IsConsistent (revokes_all user_id at) w h, tt);
  }

  pub RefreshTokens_find-Keeps :
      (token_hash : Text) → Keeps IsConsistent (RefreshTokens.find_by_hash token_hash)
  unfolding RefreshTokens.find_by_hash
  RefreshTokens_find-Keeps token_hash = gets-Keeps _
