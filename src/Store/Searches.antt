-- ===== src/Store/Searches.antt =====
-- The searches of src/users_api/infrastructure/database/user_repository.py. A cursor is the position
-- that it spells: the creation time and the id of the last row of a page.
pub mod Pattern
pub mod Order
pub mod Pages
pub mod Visits
use udesa_x_users_api.Common.{
  ℕ, suc, ◌+◌, Bool, true, false, not, ◌&&◌, ◌||◌, Option, none, some, List, [], ◌∷◌, ◌++◌, Text,
  ◌==◌, nat_eq, text_eq, ltb, keep, take, length, if◌then◌else◌,
}
use udesa_x_users_api.Text.{lower_char}
use udesa_x_users_api.Model.Account.{Role, User, role_eq, is_deleted}
use udesa_x_users_api.Platform.{Platform}
use udesa_x_users_api.World.Exec.{Action, gets}
use udesa_x_users_api.Store.Users.{is_listed_administrator}

-- `s.replace(c, r)` for one character.
abbrev pub replace : ℕ → Text → Text → Text
replace c r [] = []
replace c r (d ∷ s) = let rest = replace c r s in if d == c then r ++ rest else d ∷ rest

unfoldable pub escape_like : Text → Text
escape_like fragment =
    replace b'_' (b'\\' ∷ b'_' ∷ [])
      (replace b'%' (b'\\' ∷ b'%' ∷ []) (replace b'\\' (b'\\' ∷ b'\\' ∷ []) fragment))

abbrev pub some_suffix : (Text → Bool) → Text → Bool
some_suffix k [] = k []
some_suffix k (d ∷ t) = k (d ∷ t) || some_suffix k t

abbrev pub next_is : ℕ → (Text → Bool) → Text → Bool
next_is c k [] = false
next_is c k (d ∷ t) = lower_char c == lower_char d && k t

abbrev pub next_any : (Text → Bool) → Text → Bool
next_any k [] = false
next_any k (d ∷ t) = k t

-- SQL's `ILIKE ... ESCAPE '\'`. The flag says that the last character was the escape.
abbrev pub ilike : Bool → Text → Text → Bool
ilike escaped [] t = not escaped && (t == [])
ilike true (c ∷ pattern) t = next_is c (ilike false pattern) t
ilike false (c ∷ pattern) t =
    if c == b'\\'
    then ilike true pattern t
    else if c == b'%'
    then some_suffix (ilike false pattern) t
    else if c == b'_'
    then next_any (ilike false pattern) t
    else next_is c (ilike false pattern) t

-- `f"%{escape_like(fragment)}%"`
abbrev pub pattern_of : Text → Text
pattern_of fragment = b'%' ∷ escape_like fragment ++ b'%' ∷ []

-- `(a.created_at, a.id) < cursor`
abbrev pub Cursor : Type 0
Cursor = ℕ × ℕ

abbrev pub position : User → Cursor
position u = (u.created_at, u.id)

abbrev pub is_before : Cursor → User → Bool
is_before cursor u = ltb u.created_at cursor.0 || ((u.created_at == cursor.0) && ltb u.id cursor.1)

abbrev pub past : Option Cursor → User → Bool
past none u = true
past (some cursor) u = is_before cursor u

-- `ORDER BY created_at DESC, id DESC`
abbrev pub insert_row : User → List User → List User
insert_row u [] = u ∷ []
insert_row u (v ∷ rows) =
    let rest = insert_row u rows in if is_before (position v) u then v ∷ rest else u ∷ v ∷ rows

abbrev pub newest_first : List User → List User
newest_first [] = []
newest_first (u ∷ rows) = insert_row u (newest_first rows)

-- The accounts that the backoffice's search matches.
unfoldable pub matches_account : Text → User → Bool
unfolding is_deleted
matches_account fragment u =
    (u.role == Role.user)
    && not (is_deleted u)
    && (ilike false (pattern_of fragment) u.email || ilike false (pattern_of fragment) u.handle)

abbrev pub matches_name : Text → Option Text → Bool
matches_name fragment none = false
matches_name fragment (some name) = ilike false (pattern_of fragment) name

-- The accounts that the public search matches.
unfoldable pub matches_public : Bool → Text → User → Bool
unfolding is_deleted
matches_public handle_only fragment u =
    (u.role == Role.user)
    && not (is_deleted u)
    && (ilike false (pattern_of fragment) u.handle
        || (not handle_only && matches_name fragment u.display_name))

-- The cursor of the last row of a page.
abbrev pub last_position : List User → Option Cursor
last_position [] = none
last_position (u ∷ []) = some (position u)
last_position (u ∷ v ∷ rows) = last_position (v ∷ rows)

-- The rows of a statement that matches, past the cursor, newest first.
abbrev pub selected : (User → Bool) → Option Cursor → List User → List User
selected matches cursor users = newest_first (keep (λ u. matches u && past cursor u) users)

-- A page of at most `limit` rows, and the cursor of the next where there is one more row.
abbrev pub page_of : ℕ → List User → List User × Option Cursor
page_of limit rows =
    (take limit rows, if ltb limit (length rows) then last_position (take limit rows) else none)

module _ ⦃p : Platform⦄ where
  unfoldable pub search_user_accounts :
      Text → Option Cursor → ℕ → Action (List User × Option Cursor)
  unfolding matches_account
  search_user_accounts fragment cursor limit =
      gets λ w.
        page_of limit (take (suc limit) (selected (matches_account fragment) cursor w.db.users))

  abbrev pub search_batch_size : ℕ
  search_batch_size = 50

  unfoldable pub search_public_accounts : Text → Bool → Option Cursor → Action (List User)
  unfolding matches_public
  search_public_accounts fragment handle_only cursor =
      gets λ w.
        take search_batch_size (selected (matches_public handle_only fragment) cursor w.db.users)

  -- `ORDER BY created_at`, the earlier inserted first where it is the same.
  abbrev insert_oldest : User → List User → List User
  insert_oldest u [] = u ∷ []
  insert_oldest u (v ∷ rows) =
      let rest = insert_oldest u rows in
      if ltb v.created_at u.created_at then v ∷ rest else u ∷ v ∷ rows

  abbrev oldest_first : List User → List User
  oldest_first [] = []
  oldest_first (u ∷ rows) = insert_oldest u (oldest_first rows)

  unfoldable pub list_administrators : Action (List User)
  list_administrators = gets (λ w. oldest_first (keep is_listed_administrator w.db.users))
