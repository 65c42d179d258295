-- ===== src/Store/RefreshTokens/Once.antt =====
-- However the statements of concurrent requests interleave, and whichever requests are rolled back, a
-- refresh token is exchanged at most once.
use udesa_x_users_api.Common.{
  ℕ, ◌+◌, ◌≤◌, Bool, true, false, ◌&&◌, Option, none, some, List, [], ◌∷◌, Text, ◌==◌, nat_eq,
  text_eq, beq_text_iff, is_some, any, find?, find?-append, find?-eq_some, arith, Bool-cases,
  Option-cases, inl, inr,
}
use udesa_x_users_api.Model.Token.{RefreshToken}
use udesa_x_users_api.Platform.{Platform}
use udesa_x_users_api.World.State.{World}
use udesa_x_users_api.World.Exec.{Result, ok, err}
use udesa_x_users_api.Store.RefreshTokens.{
  clashes, new_token, has_hash, is_consumable, in_open_family, is_open_of, add, consume,
  revoke_family, revoke_all,
}
use udesa_x_users_api.Store.RefreshTokens.Laws.{
  HashesApart, HashesApart-append, find?-is_consumable, find?-revoke, find?-use, HashesApart-revoke,
  HashesApart-use,
}

-- One statement on the table, in the order in which the database runs them.
pub data Statement : Type 0 where
  adds : (user_id family_id : ℕ) (token_hash : Text) (expires_at : ℕ) → Statement
  consumes : (token_hash : Text) (now : ℕ) → Statement
  revokes_family revokes_all : (id revoked_at : ℕ) → Statement

-- Statements that take effect, of whatever requests and in whatever order, or those of one request whose
-- transaction is rolled back: what they wrote is gone, and the randomness that they drew stays drawn.
pub data Block : Type 0 where
  commits rolls_back : List Statement → Block

abbrev used_of : Option RefreshToken → Bool
used_of none = false
used_of (some row) = is_some row.used_at

abbrev one_if : Bool → ℕ
one_if true = 1
one_if false = 0

abbrev pub exchanged : Result (Option RefreshToken) → Bool
exchanged (ok o) = is_some o
exchanged (err e) = false

module _ ⦃p : Platform⦄ where
  unfoldable pub step : Statement → World → World
  step (adds user_id family_id token_hash expires_at) w =
      (add user_id family_id token_hash expires_at w).1
  step (consumes token_hash now) w = (consume token_hash now w).1
  step (revokes_family family_id revoked_at) w = (revoke_family family_id revoked_at w).1
  step (revokes_all user_id revoked_at) w = (revoke_all user_id revoked_at w).1

  -- Whether the statement hands out the token of this hash.
  unfoldable pub exchanges : Text → Statement → World → Bool
  exchanges h (consumes token_hash now) w =
      token_hash == h && exchanged (consume token_hash now w).0
  exchanges h _ w = false

  unfoldable pub steps : List Statement → World → World
  steps [] w = w
  steps (s ∷ ss) w = steps ss (step s w)

  unfoldable pub run : Block → World → World
  run (commits ss) w = steps ss w
  run (rolls_back ss) w = record (steps ss w) { db = w.db }

  unfoldable pub run_all : List Block → World → World
  unfolding run
  run_all [] w = w
  run_all (b ∷ bs) w = run_all bs (run b w)

  count_steps : Text → List Statement → World → ℕ
  count_steps h [] w = 0
  count_steps h (s ∷ ss) w = one_if (exchanges h s w) + count_steps h ss (step s w)

  -- How often the token of this hash is handed out for good.
  pub count_exchanges : Text → List Block → World → ℕ
  unfolding count_steps
  count_exchanges h [] w = 0
  count_exchanges h (commits ss ∷ bs) w =
      count_steps h ss w + count_exchanges h bs (run (commits ss) w)
  count_exchanges h (rolls_back ss ∷ bs) w = count_exchanges h bs (run (rolls_back ss) w)

  -- Whether the token of this hash has been used.
  abbrev spent : Text → World → Bool
  spent h w = used_of (find? (has_hash h) w.db.refresh_tokens)

  add-HashesApart :
      (user_id family_id : ℕ) (h : Text) (expires_at : ℕ) (w : World)
      → HashesApart w.db.refresh_tokens
      → HashesApart (add user_id family_id h expires_at w).1.db.refresh_tokens
  unfolding add
  add-HashesApart user_id family_id h expires_at w apart =
      let new = new_token (p.uuid4 w.drawn) user_id family_id h expires_at in
      elim (Bool-cases (any (clashes new) w.db.refresh_tokens)) [
        | inl taken ↦ rw taken apart
        | inr free ↦ rw free (HashesApart-append new w.db.refresh_tokens free apart)
      ]

  pub step-HashesApart :
      (s : Statement) (w : World)
      → HashesApart w.db.refresh_tokens
      → HashesApart (step s w).db.refresh_tokens
  unfolding step consume revoke_family revoke_all
  step-HashesApart (adds user_id family_id h expires_at) w apart =
      add-HashesApart user_id family_id h expires_at w apart
  step-HashesApart (consumes h now) w apart = HashesApart-use _ _ _ apart
  step-HashesApart (revokes_family id at) w apart = HashesApart-revoke _ _ _ apart
  step-HashesApart (revokes_all id at) w apart = HashesApart-revoke _ _ _ apart

  pub steps-HashesApart :
      (ss : List Statement) (w : World)
      → HashesApart w.db.refresh_tokens
      → HashesApart (steps ss w).db.refresh_tokens
  unfolding steps
  steps-HashesApart [] w apart = apart
  steps-HashesApart (s ∷ ss) w apart = steps-HashesApart ss (step s w) (step-HashesApart s w apart)

  pub run-HashesApart :
      (b : Block) (w : World)
      → HashesApart w.db.refresh_tokens
      → HashesApart (run b w).db.refresh_tokens
  unfolding run
  run-HashesApart (commits ss) w apart = steps-HashesApart ss w apart
  run-HashesApart (rolls_back ss) w apart = apart

  pub run_all-HashesApart :
      (bs : List Block) (w : World)
      → HashesApart w.db.refresh_tokens
      → HashesApart (run_all bs w).db.refresh_tokens
  unfolding run_all
  run_all-HashesApart [] w apart = apart
  run_all-HashesApart (b ∷ bs) w apart =
      run_all-HashesApart bs (run b w) (run-HashesApart b w apart)

  -- A used token stays used, and an exchange needs an unused one and uses it.
  add-spent :
      (h : Text) (user_id family_id : ℕ) (k : Text) (expires_at : ℕ) (w : World)
      → one_if (spent h w) ≤ one_if (spent h (add user_id family_id k expires_at w).1)
  unfolding add
  add-spent h user_id family_id k expires_at w =
      let new = new_token (p.uuid4 w.drawn) user_id family_id k expires_at in
      ground (arith, find?-append (has_hash h) w.db.refresh_tokens (new ∷ []))

  consume-spent :
      (h k : Text) (now : ℕ) (w : World)
      → HashesApart w.db.refresh_tokens
      → one_if (exchanges h (consumes k now) w) + one_if (spent h w)
        ≤ one_if (spent h (consume k now w).1)
  unfolding exchanges consume
  consume-spent h k now w apart = elim (Option-cases (find? (has_hash h) w.db.refresh_tokens)) [
    | inl unknown ↦ ground (
      arith,
      beq_text_iff k h,
      find?-is_consumable k now w.db.refresh_tokens apart,
      find?-use h (is_consumable k now) now w.db.refresh_tokens,
    )
    | inr (t, found) ↦ ground (
      arith,
      beq_text_iff k h,
      find?-is_consumable k now w.db.refresh_tokens apart,
      find?-eq_some (has_hash h) w.db.refresh_tokens t found,
      find?-use h (is_consumable k now) now w.db.refresh_tokens,
    )
  ]

  step-spent :
      (h : Text) (s : Statement) (w : World)
      → HashesApart w.db.refresh_tokens
      → one_if (exchanges h s w) + one_if (spent h w) ≤ one_if (spent h (step s w))
  unfolding step revoke_family revoke_all exchanges
  step-spent h (adds user_id family_id k expires_at) w apart =
      omega (arith, add-spent h user_id family_id k expires_at w)
  step-spent h (consumes k now) w apart = consume-spent h k now w apart
  step-spent h (revokes_family id at) w apart =
      ground (arith, find?-revoke h (in_open_family id) at w.db.refresh_tokens)
  step-spent h (revokes_all id at) w apart =
      ground (arith, find?-revoke h (is_open_of id) at w.db.refresh_tokens)

  count_steps-spent :
      (h : Text) (ss : List Statement) (w : World)
      → HashesApart w.db.refresh_tokens
      → count_steps h ss w + one_if (spent h w) ≤ one_if (spent h (steps ss w))
  unfolding count_steps steps
  count_steps-spent h [] w apart = omega arith
  count_steps-spent h (s ∷ ss) w apart = omega (
    arith,
    step-spent h s w apart,
    count_steps-spent h ss (step s w) (step-HashesApart s w apart),
  )

  count_exchanges-spent :
      (h : Text) (bs : List Block) (w : World)
      → HashesApart w.db.refresh_tokens
      → count_exchanges h bs w + one_if (spent h w) ≤ 1
  unfolding count_exchanges run
  count_exchanges-spent h [] w apart = ground arith
  count_exchanges-spent h (commits ss ∷ bs) w apart = omega (
    arith,
    count_steps-spent h ss w apart,
    count_exchanges-spent h bs (run (commits ss) w) (run-HashesApart (commits ss) w apart),
  )
  count_exchanges-spent h (rolls_back ss ∷ bs) w apart =
      count_exchanges-spent h bs (run (rolls_back ss) w) (run-HashesApart (rolls_back ss) w apart)

  -- From a table with no repeated hash, over any sequence of statements at any times, of which those of
  -- some requests are rolled back, the token of a hash is handed out by the statements that take effect at
  -- most once.
  pub count_exchanges-le_one :
      (h : Text) (bs : List Block) (w : World)
      → HashesApart w.db.refresh_tokens
      → count_exchanges h bs w ≤ 1
  count_exchanges-le_one h bs w apart = omega (arith, count_exchanges-spent h bs w apart)
