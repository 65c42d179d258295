-- ===== src/Store/RefreshTokens/Laws.antt =====
-- What the statements on refresh tokens find and leave.
use mathlib.Core.Option
use udesa_x_users_api.Common.{
  map_where-none, AllApart-append, ℕ, ◌≡◌, refl, Bool, true, false, not, ◌&&◌, Option, none, some,
  List, [], ◌∷◌, ◌++◌, Text, nat_eq, text_eq, beq_text_iff, ltb, is_some, any, find?, map_where,
  at_where, AllApart, AllApart-map_where, find?-map_where, any-map_where_self, arith, if◌then◌else◌,
  Bool-cases, inl, inr,
}
use udesa_x_users_api.Platform.{Platform}
use udesa_x_users_api.World.State.{World}
use udesa_x_users_api.World.Exec.{ok}
use udesa_x_users_api.Model.Token.{RefreshToken}
use udesa_x_users_api.Store.RefreshTokens.{
  consume, clashes, has_hash, is_consumable, mark_used, mark_revoked, is_open_of,
}

abbrev pub same_hash : RefreshToken → RefreshToken → Bool
same_hash a b = has_hash a.token_hash b

-- The unique column of `refresh_tokens`.
abbrev pub HashesApart : List RefreshToken → Type 0
HashesApart = AllApart same_hash

-- A token that can still be exchanged.
abbrev pub is_usable : ℕ → RefreshToken → Bool
is_usable now row =
    not (is_some row.used_at) && not (is_some row.revoked_at) && ltb now row.expires_at

abbrev pub usable_at : ℕ → Option RefreshToken → Option RefreshToken
usable_at now none = none
usable_at now (some row) = if is_usable now row then some row else none

has_hash_trans :
    (h : Text) (a b : RefreshToken) → has_hash h a ≡ true → has_hash h b ≡ same_hash a b
has_hash_trans h a b e = ground (
  arith,
  beq_text_iff a.token_hash h,
  beq_text_iff b.token_hash h,
  beq_text_iff b.token_hash a.token_hash,
)

no_consumable :
    (h : Text) (now : ℕ) (rows : List RefreshToken)
    → any (has_hash h) rows ≡ false
    → find? (is_consumable h now) rows ≡ none
no_consumable h now [] e = refl
no_consumable h now (r ∷ rows) e = ground (arith, no_consumable h now rows)

any-same_hash :
    (h : Text) (r : RefreshToken) (rows : List RefreshToken)
    → has_hash h r ≡ true
    → any (same_hash r) rows ≡ false
    → any (has_hash h) rows ≡ false
any-same_hash h r [] e n = refl
any-same_hash h r (x ∷ rows) e n = ground (arith, has_hash_trans h r x e, any-same_hash h r rows e)

-- The UPDATE of `consume` finds the token of that hash, if it can still be exchanged.
pub find?-is_consumable :
    (h : Text) (now : ℕ) (rows : List RefreshToken)
    → HashesApart rows
    → find? (is_consumable h now) rows ≡ usable_at now (find? (has_hash h) rows)
find?-is_consumable h now [] apart = refl
find?-is_consumable h now (r ∷ rows) apart = elim (Bool-cases (has_hash h r)) [
  | inl hit ↦ ground (arith, hit, no_consumable h now rows, any-same_hash h r rows hit apart.0)
  | inr miss ↦ ground (arith, miss, find?-is_consumable h now rows apart.1)
]

-- After `revoke_all` no token of the account is left open.
pub any-is_open_of :
    (user_id at : ℕ) (rows : List RefreshToken)
    → any (is_open_of user_id) (map_where (is_open_of user_id) (mark_revoked at) rows) ≡ false
any-is_open_of user_id at rows =
    any-map_where_self (is_open_of user_id) (mark_revoked at) rows (λ r. ground arith)

pub find?-revoke :
    (h : Text) (q : RefreshToken → Bool) (at : ℕ) (rows : List RefreshToken)
    → find? (has_hash h) (map_where q (mark_revoked at) rows)
      ≡ Option.map (at_where q (mark_revoked at)) (find? (has_hash h) rows)
find?-revoke h q at rows = find?-map_where (has_hash h) q (mark_revoked at) rows (λ r. refl)

pub find?-use :
    (h : Text) (q : RefreshToken → Bool) (at : ℕ) (rows : List RefreshToken)
    → find? (has_hash h) (map_where q (mark_used at) rows)
      ≡ Option.map (at_where q (mark_used at)) (find? (has_hash h) rows)
find?-use h q at rows = find?-map_where (has_hash h) q (mark_used at) rows (λ r. refl)

pub HashesApart-revoke :
    (q : RefreshToken → Bool) (at : ℕ) (rows : List RefreshToken)
    → HashesApart rows
    → HashesApart (map_where q (mark_revoked at) rows)
HashesApart-revoke q at rows =
    AllApart-map_where same_hash q (mark_revoked at) rows (λ a b. refl) (λ a b. refl)

pub HashesApart-use :
    (q : RefreshToken → Bool) (at : ℕ) (rows : List RefreshToken)
    → HashesApart rows
    → HashesApart (map_where q (mark_used at) rows)
HashesApart-use q at rows =
    AllApart-map_where same_hash q (mark_used at) rows (λ a b. refl) (λ a b. refl)

pub any-clashes :
    (new : RefreshToken) (rows : List RefreshToken)
    → any (clashes new) rows ≡ false
    → any (same_hash new) rows ≡ false
any-clashes new [] e = refl
any-clashes new (r ∷ rows) e = ground (arith, any-clashes new rows)

same_hash_comm : (a b : RefreshToken) → same_hash a b ≡ same_hash b a
same_hash_comm a b =
    ground (arith, beq_text_iff a.token_hash b.token_hash, beq_text_iff b.token_hash a.token_hash)

pub HashesApart-append :
    (new : RefreshToken) (rows : List RefreshToken)
    → any (clashes new) rows ≡ false
    → HashesApart rows
    → HashesApart (rows ++ new ∷ [])
HashesApart-append new rows free =
    AllApart-append same_hash rows new same_hash_comm (any-clashes new rows free)

module _ ⦃p : Platform⦄ (h : Text) (now : ℕ) (w : World) where
  pub consume-none :
      find? (is_consumable h now) w.db.refresh_tokens ≡ none → consume h now w ≡ (ok none, w)
  unfolding consume
  consume-none e =
      rw (e, map_where-none (is_consumable h now) (mark_used now) w.db.refresh_tokens e)
