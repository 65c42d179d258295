-- ===== src/Store/AuditLog.antt =====
-- `list_page` of src/users_api/infrastructure/database/audit_repository.py. The target of an entry is
-- always an account.
use udesa_x_users_api.Common.{
  ℕ, Bool, not, ◌&&◌, ◌||◌, Option, none, some, List, [], ◌∷◌, map, Text, ◌==◌, nat_eq, ltb, find?,
  length, take, drop, if◌then◌else◌,
}
use udesa_x_users_api.Model.Account.{User, is_deleted}
use udesa_x_users_api.Model.Event.{AuditEntry}
use udesa_x_users_api.Platform.{Platform}
use udesa_x_users_api.World.Exec.{Action, gets}

pub record AuditEntryWithTarget : Type 0 where
  pub entry : AuditEntry
  pub target_handle : Option Text

-- `ORDER BY occurred_at DESC, id DESC`
abbrev pub follows : AuditEntry → AuditEntry → Bool
follows a b = ltb a.occurred_at b.occurred_at || ((a.occurred_at == b.occurred_at) && ltb a.id b.id)

abbrev insert_entry : AuditEntry → List AuditEntry → List AuditEntry
insert_entry e [] = e ∷ []
insert_entry e (f ∷ log) =
    let rest = insert_entry e log in if follows e f then f ∷ rest else e ∷ f ∷ log

abbrev pub latest_first : List AuditEntry → List AuditEntry
latest_first [] = []
latest_first (e ∷ log) = insert_entry e (latest_first log)

-- The outer join with the accounts that are not deleted.
abbrev pub handle_of : Option User → Option Text
handle_of none = none
handle_of (some u) = some u.handle

abbrev pub is_target : AuditEntry → User → Bool
is_target e u = u.id == e.target_id && not (is_deleted u)

abbrev pub joined : List User → AuditEntry → AuditEntryWithTarget
joined users e = record { entry = e; target_handle = handle_of (find? (is_target e) users) }

module _ ⦃p : Platform⦄ where
  -- The page, and the number of entries in the log.
  unfoldable pub list_page : ℕ → ℕ → Action (List AuditEntryWithTarget × ℕ)
  list_page limit offset = gets λ w. (
    map (joined w.db.users) (take limit (drop offset (latest_first w.db.audit_log))),
    length w.db.audit_log,
  )
