-- ===== src/Service/AccountReview/Statuses.antt =====
-- The status of an account as a state machine: blocking, putting under review and lifting a review.
use mathlib.Core.Option
use udesa_x_users_api.Common.{
  ℕ, ◌≡◌, ◌≢◌, refl, Bool, true, false, not, ◌&&◌, ◌⊎◌, inl, inr, Option, none, some, is_some, List,
  [], ◌∷◌, find?, map_where, find?-map_where, at_where, find?-eq_some, Text, ◌==◌, nat_eq,
  beq_ℕ_iff, arith, if◌then◌else◌, Option-cases, Bool-cases,
}
use udesa_x_users_api.Config.{Settings}
use udesa_x_users_api.Model.Account.{
  active, suspended, under_review, User, status_eq, is_deleted, is_administrator, change_status,
}
use udesa_x_users_api.Platform.{Platform}
use udesa_x_users_api.World.State.{World}
use udesa_x_users_api.World.Exec.{Action, None}
use udesa_x_users_api.Store.Users
use udesa_x_users_api.Store.Users.{has_id, overwrite}
use udesa_x_users_api.Store.RefreshTokens
use udesa_x_users_api.Store.Records.{add_entry}
use udesa_x_users_api.Cache.RateLimiter.Window.{at_time}
use udesa_x_users_api.Cache.Sessions
use udesa_x_users_api.Service.Audit.{administrator, record_action}
use udesa_x_users_api.Service.AccountBlock.{suspend, block}
use udesa_x_users_api.Service.AccountReview.{freeze, put_under_review, lift_review}

-- The operations on the status of an account, each with its arguments.
pub data Operation : Type 0 where
  puts_under_review lifts_review : ℕ → Operation
  blocks_account : User → ℕ → Text → Operation

abbrev pub addressee : Operation → ℕ
addressee (puts_under_review n) = n
addressee (lifts_review n) = n
addressee (blocks_account a n reason) = n

-- Whether an operation changes the account.
abbrev pub applies : Operation → User → Bool
applies (puts_under_review n) u = u.id == n && (u.status == active)
applies (lifts_review n) u = u.id == n && (u.status == under_review)
applies (blocks_account a n reason) u =
    u.id == n && not (is_deleted u) && not (is_administrator u) && not (u.status == suspended)

-- What an operation at an instant may make of an account.
pub data Step : Operation → ℕ → User → User → Type 0 where
  freezes :
      (n now : ℕ) (u : User)
      → u.id ≡ n
      → u.status ≡ active
      → Step (puts_under_review n) now u (change_status u under_review now none)
  releases :
      (n now : ℕ) (u : User)
      → u.id ≡ n
      → u.status ≡ under_review
      → Step (lifts_review n) now u (change_status u active now none)
  blocks :
      (a : User) (n : ℕ) (reason : Text) (now : ℕ) (u : User)
      → u.id ≡ n
      → is_deleted u ≡ false
      → is_administrator u ≡ false
      → u.status ≢ suspended
      → Step (blocks_account a n reason) now u (change_status u suspended now (some reason))
  stays : (o : Operation) (now : ℕ) (u : User) → applies o u ≡ false → Step o now u u

-- The account that an operation writes, where it writes one.
abbrev pub written : Operation → ℕ → User → Option User
written (puts_under_review n) now u =
    if u.status == active then some (change_status u under_review now none) else none
written (lifts_review n) now u =
    if u.status == under_review then some (change_status u active now none) else none
written (blocks_account a n reason) now u =
    if is_deleted u
    then none
    else if is_administrator u
    then none
    else if u.status == suspended
    then none
    else some (change_status u suspended now (some reason))

abbrev store : Option User → List User → List User
store none users = users
store (some u) users = map_where (has_id u.id) (overwrite u) users

abbrev write_found : Operation → ℕ → Option User → List User → List User
write_found o now none users = users
write_found o now (some u) users = store (written o now u) users

module _ ⦃p : Platform⦄ (settings : Settings) where
  abbrev pub run : Operation → Action None
  run (puts_under_review n) = put_under_review settings n
  run (lifts_review n) = lift_review n
  run (blocks_account a n reason) = block settings a n reason

  users-suspend :
      (a u : User) (reason : Text) (w : World)
      → (suspend settings a u reason w).1.db.users
        ≡ map_where
            (has_id u.id)
            (overwrite (change_status u suspended w.clock (some reason)))
            w.db.users
  unfolding change_status suspend Users.get Users.update Sessions.revoke_all
      RefreshTokens.revoke_all record_action administrator add_entry
  users-suspend a u reason w = ground arith

  users-run :
      (o : Operation) (w : World)
      → (run o w).1.db.users
        ≡ write_found o w.clock (find? (has_id (addressee o)) w.db.users) w.db.users
  unfolding change_status put_under_review lift_review block freeze Users.get Users.update
      Sessions.revoke_all RefreshTokens.revoke_all
  users-run (puts_under_review n) w = ground arith
  users-run (lifts_review n) w = ground arith
  users-run (blocks_account a n reason) w = elim (Option-cases (find? (has_id n) w.db.users)) [
    | inl missing ↦ ground (arith, missing)
    | inr (u, e) ↦ ground (arith, e, users-suspend a u reason w)
  ]

written-id : (o : Operation) (now : ℕ) (u v : User) → written o now u ≡ some v → v.id ≡ u.id
unfolding change_status
written-id (puts_under_review n) now u v h = ground arith
written-id (lifts_review n) now u v h = ground arith
written-id (blocks_account a n reason) now u v h = ground arith

written-suspended :
    (o : Operation) (now : ℕ) (u : User) → u.status ≡ suspended → written o now u ≡ none
written-suspended (puts_under_review n) now u h = ground (arith, h)
written-suspended (lifts_review n) now u h = ground (arith, h)
written-suspended (blocks_account a n reason) now u h = ground (arith, h)

same_id : (id : ℕ) (v x : User) → has_id id (overwrite v x) ≡ has_id id x
unfolding overwrite
same_id id v x = refl

-- What an operation leaves of the account with an id.
found-write :
    (o : Operation) (now id : ℕ) (users : List User) (u : User)
    → find? (has_id id) users ≡ some u
    → let after =
        find? (has_id id) (write_found o now (find? (has_id (addressee o)) users) users) in
      ((after ≡ some u) × ((u.id == addressee o && is_some (written o now u)) ≡ false))
      ⊎ ((v : User) × (written o now u ≡ some v)
          × ((u.id == addressee o) ≡ true)
          × (after ≡ some (overwrite v u)))
found-write o now id users u found = elim (Option-cases (find? (has_id (addressee o)) users)) [
  | inl missing ↦ inl (rw missing found, ground (arith, missing, ids))
  | inr (u₀, e) ↦ elim (Option-cases (written o now u₀)) [
    | inl unwritten ↦
        inl (
          rw (e, unwritten) found,
          ground (arith, e, unwritten, ids, beq_ℕ_iff u₀.id (addressee o)),
        )
    | inr (v, w) ↦ elim (Bool-cases (u.id == v.id)) [
      | inl here ↦
          let same : u₀ ≡ u = ground (
            arith,
            w,
            e,
            here,
            ids,
            written-id o now u₀ v w,
            find?-eq_some (has_id (addressee o)) users u₀ e,
            beq_ℕ_iff u.id v.id,
            beq_ℕ_iff u₀.id (addressee o),
          ) in
          inr (
            v,
            ground (arith, w, same),
            ground (arith, e, same, find?-eq_some (has_id (addressee o)) users u₀ e),
            ground (arith, w, e, found, here, kept v),
          )
      | inr elsewhere ↦ inl (
        ground (arith, w, e, found, elsewhere, kept v),
        ground (
          arith,
          elsewhere,
          written-id o now u₀ v w,
          find?-eq_some (has_id (addressee o)) users u₀ e,
          beq_ℕ_iff u.id v.id,
          beq_ℕ_iff u₀.id (addressee o),
          beq_ℕ_iff u.id (addressee o),
        ),
      )
    ]
  ]
]
  where
    -- Two accounts with the same id are one: the first with it.
    ids : (u.id == addressee o) ≡ true → find? (has_id (addressee o)) users ≡ some u
    ids here = ground (
      arith,
      found,
      here,
      find?-eq_some (has_id id) users u found,
      beq_ℕ_iff u.id id,
      beq_ℕ_iff u.id (addressee o),
    )

    kept :
        (v : User)
        → find? (has_id id) (map_where (has_id v.id) (overwrite v) users)
          ≡ Option.map (at_where (has_id v.id) (overwrite v)) (find? (has_id id) users)
    kept v = find?-map_where (has_id id) (has_id v.id) (overwrite v) users (same_id id v)

module _ ⦃p : Platform⦄ (settings : Settings) where
  run-suspended :
      (o : Operation) (w : World) (id : ℕ) (u : User)
      → find? (has_id id) w.db.users ≡ some u
      → u.status ≡ suspended
      → find? (has_id id) (run settings o w).1.db.users ≡ some u
  run-suspended o w id u found blocked =
      rw (users-run settings o w) (elim (found-write o w.clock id w.db.users u found) [
        | inl (same, unmoved) ↦ same
        | inr (v, written_v, here, new) ↦
            absurd (ground (arith, written_v, written-suspended o w.clock u blocked))
      ])

  -- Operations at the given instants.
  abbrev pub run_all : List (ℕ × Operation) → World → World
  run_all [] w = w
  run_all ((t, o) ∷ rest) w = run_all rest (run settings o (at_time t w)).1

  -- A blocked account stays blocked for good, with the reason and the instant of its first block,
  -- whatever reviews, releases and further blocks follow, in any order and at any time.
  pub run_all-suspended :
      (operations : List (ℕ × Operation)) (w : World) (id : ℕ) (u : User)
      → find? (has_id id) w.db.users ≡ some u
      → u.status ≡ suspended
      → find? (has_id id) (run_all operations w).db.users ≡ some u
  run_all-suspended [] w id u found blocked = found
  run_all-suspended ((t, o) ∷ rest) w id u found blocked =
      run_all-suspended rest (run settings o (at_time t w)).1 id u
        (run-suspended o (at_time t w) id u found blocked) blocked
