-- ===== src/Store/RefreshTokens/Spared.antt =====
-- A used refresh token stays as it is until its family or all tokens of its owner are revoked.
use udesa_x_users_api.Common.{
  ◌≡◌, Bool, true, not, some, List, [], ◌∷◌, Text, ◌==◌, nat_eq, text_eq, is_some, find?,
  find?-append, All, arith,
}
use udesa_x_users_api.Model.Token.{RefreshToken}
use udesa_x_users_api.Platform.{Platform}
use udesa_x_users_api.World.State.{World}
use udesa_x_users_api.Store.RefreshTokens.{
  new_token, has_hash, is_consumable, in_open_family, is_open_of, add, consume, revoke_family,
  revoke_all,
}
use udesa_x_users_api.Store.RefreshTokens.Laws.{find?-revoke, find?-use}
use udesa_x_users_api.Store.RefreshTokens.Once.{
  Statement, adds, consumes, revokes_family, revokes_all, Block, commits, rolls_back, step, steps,
  run, run_all,
}

-- The statement revokes neither the family of the token nor all tokens of its owner.
abbrev pub spares : RefreshToken → Statement → Bool
spares t (adds user_id family_id token_hash expires_at) = true
spares t (consumes token_hash now) = true
spares t (revokes_family family_id revoked_at) = not (t.family_id == family_id)
spares t (revokes_all user_id revoked_at) = not (t.user_id == user_id)

-- No statement of the block that takes effect revokes the token.
abbrev pub Spares : RefreshToken → Block → Type 0
Spares t (commits ss) = All (λ s. spares t s ≡ true) ss
Spares t (rolls_back ss) = Unit {0}

module _ ⦃p : Platform⦄ (h : Text) (t : RefreshToken) (used : is_some t.used_at ≡ true) where
  abbrev Found : World → Type 0
  Found w = find? (has_hash h) w.db.refresh_tokens ≡ some t

  step-Found : (s : Statement) (w : World) → spares t s ≡ true → Found w → Found (step s w)
  unfolding step add consume revoke_family revoke_all
  step-Found (adds user_id family_id k expires_at) w spared found =
      let new = new_token (p.uuid4 w.drawn) user_id family_id k expires_at in
      ground (arith, found, find?-append (has_hash h) w.db.refresh_tokens (new ∷ []))
  step-Found (consumes k now) w spared found =
      ground (arith, used, found, find?-use h (is_consumable k now) now w.db.refresh_tokens)
  step-Found (revokes_family id at) w spared found =
      ground (arith, spared, found, find?-revoke h (in_open_family id) at w.db.refresh_tokens)
  step-Found (revokes_all id at) w spared found =
      ground (arith, spared, found, find?-revoke h (is_open_of id) at w.db.refresh_tokens)

  steps-Found :
      (ss : List Statement) (w : World)
      → All (λ s. spares t s ≡ true) ss
      → Found w
      → Found (steps ss w)
  unfolding steps
  steps-Found [] w spared found = found
  steps-Found (s ∷ ss) w spared found =
      steps-Found ss (step s w) spared.1 (step-Found s w spared.0 found)

  run-Found : (b : Block) (w : World) → Spares t b → Found w → Found (run b w)
  unfolding run
  run-Found (commits ss) w spared found = steps-Found ss w spared found
  run-Found (rolls_back ss) w spared found = found

  pub run_all-Found :
      (bs : List Block) (w : World)
      → All (Spares t) bs
      → find? (has_hash h) w.db.refresh_tokens ≡ some t
      → find? (has_hash h) (run_all bs w).db.refresh_tokens ≡ some t
  unfolding run_all
  run_all-Found [] w spared found = found
  run_all-Found (b ∷ bs) w spared found =
      run_all-Found bs (run b w) spared.1 (run-Found b w spared.0 found)
