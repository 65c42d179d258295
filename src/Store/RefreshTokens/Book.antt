-- ===== src/Store/RefreshTokens/Book.antt =====
-- The table of refresh tokens seen from outside: a book that knows for each digest whose it is, until
-- when it serves, and whether it was used or revoked. The order of the rows, their ids and the dates
-- of use and revocation are forgotten.
use mathlib.Core.Option
use udesa_x_users_api.Common.{
  ℕ, suc, Bool, true, false, not, ◌&&◌, ◌||◌, Option, none, some, List, [], ◌∷◌, Text, ◌==◌, nat_eq,
  text_eq, ltb, is_some, any, find?, if◌then◌else◌,
}
use udesa_x_users_api.Model.Token.{RefreshToken}
use udesa_x_users_api.Model.Problem.{integrity_error}
use udesa_x_users_api.Platform.{Platform}
use udesa_x_users_api.World.State.{World}
use udesa_x_users_api.World.Exec.{Result, ok, err}
use udesa_x_users_api.Store.RefreshTokens.{has_hash, add, consume, revoke_family, revoke_all}
use udesa_x_users_api.Store.RefreshTokens.Once.{
  Statement, adds, consumes, revokes_family, revokes_all, Block, commits, rolls_back, step, run,
}

-- What a digest stands for.
pub record Grant : Type 0 where
  pub owner : ℕ
  pub family : ℕ
  pub until : ℕ
  pub used : Bool
  pub revoked : Bool

pub record Book : Type 0 where
  pub grants : Text → Option Grant
  pub taken : ℕ → Bool
  pub drawn : ℕ

abbrev pub serves : ℕ → Grant → Bool
serves now g = not g.used && not g.revoked && ltb now g.until

abbrev pub spend : ℕ → Grant → Grant
spend now g = if serves now g then record g { used = true } else g

abbrev pub spent_grant : ℕ → Option Grant → Option Grant
spent_grant now none = none
spent_grant now (some g) = if serves now g then some (record g { used = true }) else none

abbrev pub close_where : (Grant → Bool) → Grant → Grant
close_where q g = if q g then record g { revoked = true } else g

abbrev pub fresh_grant : ℕ → ℕ → ℕ → Grant
fresh_grant owner family until = record {
  owner = owner;
  family = family;
  until = until;
  used = false;
  revoked = false;
}

abbrev pub enter : Text → Grant → (Text → Option Grant) → Text → Option Grant
enter h g grants k = if h == k then some g else grants k

abbrev pub alter_at : Text → (Grant → Grant) → (Text → Option Grant) → Text → Option Grant
alter_at h f grants k = if h == k then Option.map f (grants k) else grants k

abbrev pub statements : Block → List Statement
statements (commits ss) = ss
statements (rolls_back ss) = ss

module _ ⦃p : Platform⦄ where
  -- What the book answers to a statement, and what it says from then on.
  abbrev pub noted : Statement → Book → Result (Option Grant) × Book
  noted (adds owner family h until) b =
      let id = p.uuid4 b.drawn in
      if b.taken id || is_some (b.grants h)
      then (err integrity_error, record b { drawn = suc b.drawn })
      else (
        ok none,
        record {
          grants = enter h (fresh_grant owner family until) b.grants;
          taken = λ other. b.taken other || id == other;
          drawn = suc b.drawn;
        },
      )
  noted (consumes h now) b =
      (ok (spent_grant now (b.grants h)), record b { grants = alter_at h (spend now) b.grants })
  noted (revokes_family id at) b = (
    ok none,
    record b { grants = λ k. Option.map (close_where (λ g. g.family == id)) (b.grants k) },
  )
  noted (revokes_all id at) b = (
    ok none,
    record b { grants = λ k. Option.map (close_where (λ g. g.owner == id)) (b.grants k) },
  )

  abbrev pub noted_each : List Statement → Book → List (Result (Option Grant))
  noted_each [] b = []
  noted_each (s ∷ ss) b = (noted s b).0 ∷ noted_each ss (noted s b).1

  abbrev pub note_each : List Statement → Book → Book
  note_each [] b = b
  note_each (s ∷ ss) b = note_each ss (noted s b).1

  -- What is rolled back was never entered, but for the ids that were drawn.
  abbrev pub note_block : Block → Book → Book
  note_block (commits ss) b = note_each ss b
  note_block (rolls_back ss) b = record b { drawn = (note_each ss b).drawn }

  abbrev pub noted_all : List Block → Book → List (List (Result (Option Grant)))
  noted_all [] b = []
  noted_all (block ∷ blocks) b =
      noted_each (statements block) b ∷ noted_all blocks (note_block block b)

  abbrev pub grant_of : RefreshToken → Grant
  grant_of row = record {
    owner = row.user_id;
    family = row.family_id;
    until = row.expires_at;
    used = is_some row.used_at;
    revoked = is_some row.revoked_at;
  }

  abbrev pub has_row_id : ℕ → RefreshToken → Bool
  has_row_id id row = row.id == id

  -- The book of a table.
  abbrev pub book : World → Book
  book w = record {
    grants = λ h. Option.map grant_of (find? (has_hash h) w.db.refresh_tokens);
    taken = λ id. any (has_row_id id) w.db.refresh_tokens;
    drawn = w.drawn;
  }

  abbrev pub answer_of : {A : Type 0} → (A → Option Grant) → Result A → Result (Option Grant)
  answer_of f (ok a) = ok (f a)
  answer_of f (err e) = err e

  -- What the table answers to a statement.
  abbrev pub answer : Statement → World → Result (Option Grant)
  answer (adds owner family h until) w = answer_of (λ _. none) (add owner family h until w).0
  answer (consumes h now) w = answer_of (Option.map grant_of) (consume h now w).0
  answer (revokes_family id at) w = answer_of (λ _. none) (revoke_family id at w).0
  answer (revokes_all id at) w = answer_of (λ _. none) (revoke_all id at w).0

  abbrev pub answer_each : List Statement → World → List (Result (Option Grant))
  answer_each [] w = []
  answer_each (s ∷ ss) w = answer s w ∷ answer_each ss (step s w)

  -- The answers to each block.
  abbrev pub answers : List Block → World → List (List (Result (Option Grant)))
  answers [] w = []
  answers (block ∷ blocks) w = answer_each (statements block) w ∷ answers blocks (run block w)
