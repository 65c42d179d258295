-- ===== src/Store/RefreshTokens/Refinement.antt =====
-- The table of refresh tokens answers every statement as its book does.
use mathlib.Core.Option
use udesa_x_users_api.Common.{
  ℕ, ◌≡◌, refl, Bool, true, ◌||◌, List, [], ◌∷◌, Text, ◌==◌, nat_eq, text_eq, beq_text_iff, is_some,
  any, find?, find?-append, any-append, find?-eq_some, any-map_where, map_where, at_where,
  is_some-find?, arith, Option-cases, inl, inr,
}
use udesa_x_users_api.Model.Token.{RefreshToken}
use udesa_x_users_api.Platform.{Platform}
use udesa_x_users_api.World.State.{World}
use udesa_x_users_api.Store.RefreshTokens.{
  new_token, has_hash, is_consumable, in_open_family, is_open_of, mark_used, mark_revoked, clashes,
  add, consume, revoke_family, revoke_all,
}
use udesa_x_users_api.Store.RefreshTokens.Laws.{
  HashesApart, find?-is_consumable, find?-revoke, find?-use,
}
use udesa_x_users_api.Store.RefreshTokens.Once.{
  Statement, adds, consumes, revokes_family, revokes_all, Block, commits, rolls_back, step, steps,
  run, step-HashesApart, run-HashesApart,
}
use udesa_x_users_api.Store.RefreshTokens.Book.{
  Grant, Book, close_where, noted, noted_each, note_each, note_block, noted_all, grant_of,
  has_row_id, statements, book, answer, answer_each, answers,
}

module _ ⦃p : Platform⦄ where
  text_same : (h k : Text) → (h == k) ≡ true → h ≡ k
  text_same h k same = ground (arith, beq_text_iff h k, same)

  -- The book says of each digest what the table does.
  record Agrees (w : World) (b : Book) : Type 0 where
    grants : (h : Text) → (book w).grants h ≡ b.grants h
    taken : (id : ℕ) → (book w).taken id ≡ b.taken id
    drawn : w.drawn ≡ b.drawn

  record Follows (s : Statement) (w : World) (b : Book) : Type 0 where
    same_answer : answer s w ≡ (noted s b).0
    agrees : Agrees (step s w) (noted s b).1

  any-clashes_or :
      (new : RefreshToken) (rows : List RefreshToken)
      → any (clashes new) rows
        ≡ (any (has_row_id new.id) rows || any (has_hash new.token_hash) rows)
  any-clashes_or new [] = refl
  any-clashes_or new (r ∷ rows) = ground (arith, any-clashes_or new rows)

  consume-Follows :
      (h : Text) (now : ℕ) (w : World) (b : Book)
      → HashesApart w.db.refresh_tokens
      → Agrees w b
      → Follows (consumes h now) w b
  unfolding step consume
  consume-Follows h now w b apart agreed = record {
    same_answer =
        ground (arith, find?-is_consumable h now w.db.refresh_tokens apart, agreed.grants h);
    agrees = record {
      grants = λ k. noted_at k;
      taken = λ id.
          rw
            (any-map_where (has_row_id id) (is_consumable h now) (mark_used now) w.db.refresh_tokens
              (λ r. refl))
            (agreed.taken id);
      drawn = agreed.drawn;
    };
  }
    where
      noted_at :
          (k : Text)
          → (book (step (consumes h now) w)).grants k ≡ (noted (consumes h now) b).1.grants k
      noted_at k = elim (Option-cases (find? (has_hash k) w.db.refresh_tokens)) [
        | inl unknown ↦
            ground
              (arith, agreed.grants k, find?-use k (is_consumable h now) now w.db.refresh_tokens)
        | inr (t, found) ↦ ground (
          arith,
          agreed.grants k,
          beq_text_iff h k,
          beq_text_iff t.token_hash h,
          beq_text_iff t.token_hash k,
          find?-eq_some (has_hash k) w.db.refresh_tokens t found,
          find?-use k (is_consumable h now) now w.db.refresh_tokens,
        )
      ]

  revoke-Agrees :
      (q : RefreshToken → Bool) (closes : Grant → Bool) (at : ℕ) (w : World) (b : Book)
      → ((r : RefreshToken)
          → grant_of (at_where q (mark_revoked at) r) ≡ close_where closes (grant_of r))
      → Agrees w b
      → Agrees
          (record w {
            db = record w.db { refresh_tokens = map_where q (mark_revoked at) w.db.refresh_tokens };
          })
          (record b { grants = λ k. Option.map (close_where closes) (b.grants k) })
  revoke-Agrees q closes at w b same agreed = record {
    grants = λ k. elim (Option-cases (find? (has_hash k) w.db.refresh_tokens)) [
      | inl unknown ↦ ground (arith, agreed.grants k, find?-revoke k q at w.db.refresh_tokens)
      | inr (t, found) ↦
          ground (arith, agreed.grants k, same t, find?-revoke k q at w.db.refresh_tokens)
    ];
    taken = λ id.
        rw (any-map_where (has_row_id id) q (mark_revoked at) w.db.refresh_tokens (λ r. refl))
          (agreed.taken id);
    drawn = agreed.drawn;
  }

  add-Follows :
      (owner family : ℕ) (h : Text) (until : ℕ) (w : World) (b : Book)
      → Agrees w b
      → Follows (adds owner family h until) w b
  unfolding step add
  add-Follows owner family h until w b agreed = record {
    same_answer = ground (arith, same_test);
    agrees = record {
      grants = λ k. ground (
        arith,
        same_test,
        agreed.grants k,
        find?-append (has_hash k) rows (new ∷ []),
        grants_known k,
      );
      taken = λ id.
          ground (arith, same_test, agreed.taken id, any-append (has_row_id id) rows (new ∷ []));
      drawn = ground (arith, agreed.drawn);
    };
  }
    where
      new : RefreshToken
      new = new_token (p.uuid4 w.drawn) owner family h until

      rows : List RefreshToken
      rows = w.db.refresh_tokens

      same_test : any (clashes new) rows ≡ (b.taken (p.uuid4 b.drawn) || is_some (b.grants h))
      same_test = ground (
        arith,
        any-clashes_or new rows,
        is_some-find? (has_hash h) rows,
        agreed.grants h,
        agreed.taken (p.uuid4 w.drawn),
        agreed.drawn,
      )

      grants_known : (k : Text) → (h == k) ≡ true → is_some (b.grants k) ≡ is_some (b.grants h)
      grants_known k same = rw (text_same h k same) refl

  step-Follows :
      (s : Statement) (w : World) (b : Book)
      → HashesApart w.db.refresh_tokens
      → Agrees w b
      → Follows s w b
  unfolding step revoke_family revoke_all
  step-Follows (adds owner family h until) w b apart agreed =
      add-Follows owner family h until w b agreed
  step-Follows (consumes h now) w b apart agreed = consume-Follows h now w b apart agreed
  step-Follows (revokes_family id at) w b apart agreed = record {
    same_answer = refl;
    agrees =
        revoke-Agrees (in_open_family id) (λ g. g.family == id) at w b (λ r. ground arith) agreed;
  }
  step-Follows (revokes_all id at) w b apart agreed = record {
    same_answer = refl;
    agrees = revoke-Agrees (is_open_of id) (λ g. g.owner == id) at w b (λ r. ground arith) agreed;
  }

  each_follows :
      (ss : List Statement) (w : World) (b : Book)
      → HashesApart w.db.refresh_tokens
      → Agrees w b
      → (answer_each ss w ≡ noted_each ss b) × Agrees (steps ss w) (note_each ss b)
  unfolding steps
  each_follows [] w b apart agreed = (refl, agreed)
  each_follows (s ∷ ss) w b apart agreed =
      let follows = step-Follows s w b apart agreed in
      let (rest, agrees) =
        each_follows ss (step s w) (noted s b).1 (step-HashesApart s w apart) follows.agrees in
      (λ i. follows.same_answer i ∷ rest i, agrees)

  -- The table after a rollback is the one before it, and so is the book.
  run-Agrees :
      (block : Block) (w : World) (b : Book)
      → HashesApart w.db.refresh_tokens
      → Agrees w b
      → Agrees (run block w) (note_block block b)
  unfolding run
  run-Agrees (commits ss) w b apart agreed = (each_follows ss w b apart agreed).1
  run-Agrees (rolls_back ss) w b apart agreed = record {
    grants = agreed.grants;
    taken = agreed.taken;
    drawn = (each_follows ss w b apart agreed).1.drawn;
  }

  follow_all :
      (blocks : List Block) (w : World) (b : Book)
      → HashesApart w.db.refresh_tokens
      → Agrees w b
      → answers blocks w ≡ noted_all blocks b
  follow_all [] w b apart agreed = refl
  follow_all (block ∷ blocks) w b apart agreed =
      let here = (each_follows (statements block) w b apart agreed).0 in
      let rest =
        follow_all blocks (run block w) (note_block block b) (run-HashesApart block w apart)
          (run-Agrees block w b apart agreed) in
      λ i. here i ∷ rest i

  -- From a table with no repeated hash, any blocks of statements, each of them of whatever requests and
  -- taking effect or of one request and rolled back as a whole, are answered as the book of that table
  -- answers them: `add` is refused exactly where the digest or the id is taken, `consume` hands out a
  -- token exactly where it is unused, unrevoked and in time, and a token whose exchange was rolled back
  -- can be exchanged again.
  pub answers-noted_all :
      (blocks : List Block) (w : World)
      → HashesApart w.db.refresh_tokens
      → answers blocks w ≡ noted_all blocks (book w)
  answers-noted_all blocks w apart =
      follow_all blocks w (book w) apart
        (record { grants = λ h. refl; taken = λ id. refl; drawn = refl })
