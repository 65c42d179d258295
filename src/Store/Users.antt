-- ===== src/Store/Users.antt =====
-- src/users_api/infrastructure/database/user_repository.py: accounts, apart from the searches.
pub mod Unique
use udesa_x_users_api.Common.{
  ℕ, Bool, not, ◌&&◌, ◌||◌, Option, [], ◌∷◌, ◌++◌, Text, ◌==◌, nat_eq, text_eq, any, find?, keep,
  length, ltb, map_where,
}
use udesa_x_users_api.Model.Account.{
  Role, AccountStatus, User, Draft, role_eq, status_eq, is_deleted,
}
use udesa_x_users_api.Model.Problem.{integrity_error, data_error}
use udesa_x_users_api.Platform.{Platform}
use udesa_x_users_api.World.Exec.{
  Action, None, pure, gets, raise_if, on_db, utc_now, draw, ◌>>=◌, ◌>>◌,
}

-- `String(320)` and `String(16)`: the columns of a new account whose text another part may not have
-- bounded. Whoever calls `add` has stripped both.
abbrev pub is_too_wide : User → Bool
is_too_wide row = ltb 320 (length row.email) || ltb 16 (length row.handle)

-- The unique columns of `users`.
abbrev pub same_account : User → User → Bool
same_account a b = a.id == b.id || a.email == b.email || a.handle == b.handle

abbrev pub has_id : ℕ → User → Bool
has_id id row = row.id == id

abbrev pub has_email : Text → User → Bool
has_email email row = row.email == email

abbrev pub has_identifier : Text → User → Bool
has_identifier identifier row = row.email == identifier || row.handle == identifier

abbrev pub has_email_or_handle : Text → Text → User → Bool
has_email_or_handle email handle row = row.email == email || row.handle == handle

-- What `update` writes: never the email, the handle, the terms or the creation time.
unfoldable pub overwrite : User → User → User
overwrite u row = record row {
  password_hash = u.password_hash;
  role = u.role;
  must_change_password = u.must_change_password;
  temporary_password_expires_at = u.temporary_password_expires_at;
  is_email_verified = u.is_email_verified;
  status = u.status;
  status_reason = u.status_reason;
  status_changed_at = u.status_changed_at;
  deleted_at = u.deleted_at;
  display_name = u.display_name;
  bio = u.bio;
  profile_visibility = u.profile_visibility;
  feed_language = u.feed_language;
}

-- The condition of `count_users`.
unfoldable pub is_counted : AccountStatus → User → Bool
unfolding is_deleted
is_counted status row =
    (row.role == Role.user)
    && (row.status == status)
    && row.is_email_verified
    && not (is_deleted row)

unfoldable pub is_listed_administrator : User → Bool
unfolding is_deleted
is_listed_administrator row = not (row.role == Role.user) && not (is_deleted row)

module _ ⦃p : Platform⦄ where
  unfoldable pub add : Draft → Action User
  add draft = do
    n ← draw
    created_at ← utc_now
    rows ← gets (λ w. w.db.users)
    let row = draft (p.uuid4 n) created_at
    raise_if (is_too_wide row) data_error
    raise_if (any (same_account row) rows) integrity_error
    on_db (λ db. record db { users = db.users ++ row ∷ [] })
    pure row

  unfoldable pub get : ℕ → Action (Option User)
  get user_id = gets (λ w. find? (has_id user_id) w.db.users)

  unfoldable pub find_by_identifier : Text → Action (Option User)
  find_by_identifier identifier = gets (λ w. find? (has_identifier identifier) w.db.users)

  unfoldable pub find_by_email : Text → Action (Option User)
  find_by_email email = gets (λ w. find? (has_email email) w.db.users)

  unfoldable pub exists_with_email_or_handle : Text → Text → Action Bool
  exists_with_email_or_handle email handle =
      gets (λ w. any (has_email_or_handle email handle) w.db.users)

  unfoldable pub count_users : AccountStatus → Action ℕ
  unfolding is_counted
  count_users status = gets (λ w. length (keep (is_counted status) w.db.users))

  unfoldable pub update : User → Action None
  unfolding overwrite
  update u = on_db (λ db. record db { users = map_where (has_id u.id) (overwrite u) db.users })
