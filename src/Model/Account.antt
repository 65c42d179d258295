-- ===== src/Model/Account.antt =====
-- src/users_api/app/models/user.py: what an account is and the questions that it answers.
use udesa_x_users_api.Common.{
  ℕ, Bool, true, false, not, ◌&&◌, Option, none, some, ◌≡◌, ◌↔◌, arith, leb, is_some, Comparable,
  ◌==◌, Text,
}

pub data Role : Type 0 where
  user moderator superadmin : Role

pub data ProfileVisibility : Type 0 where
  everyone protected : ProfileVisibility

pub data AccountStatus : Type 0 where
  active suspended under_review : AccountStatus

pub data FeedLanguage : Type 0 where
  es en every : FeedLanguage

-- The enumerations compare by identity, `is`.
abbrev pub beq_role : Role → Role → Bool
beq_role Role.user Role.user = true
beq_role Role.moderator Role.moderator = true
beq_role Role.superadmin Role.superadmin = true
beq_role _ _ = false

pub beq_role_iff : (a b : Role) → (beq_role a b ≡ true) ↔ (a ≡ b)
beq_role_iff a b = ground arith

instance abbrev pub role_eq : Comparable Role
role_eq = record { same_iff = beq_role_iff; same = beq_role }

abbrev pub beq_status : AccountStatus → AccountStatus → Bool
beq_status active active = true
beq_status suspended suspended = true
beq_status under_review under_review = true
beq_status _ _ = false

pub beq_status_iff : (a b : AccountStatus) → (beq_status a b ≡ true) ↔ (a ≡ b)
beq_status_iff a b = ground arith

instance abbrev pub status_eq : Comparable AccountStatus
status_eq = record { same_iff = beq_status_iff; same = beq_status }

abbrev pub beq_language : FeedLanguage → FeedLanguage → Bool
beq_language es es = true
beq_language en en = true
beq_language every every = true
beq_language _ _ = false

pub beq_language_iff : (a b : FeedLanguage) → (beq_language a b ≡ true) ↔ (a ≡ b)
beq_language_iff a b = ground arith

instance abbrev pub language_eq : Comparable FeedLanguage
language_eq = record { same_iff = beq_language_iff; same = beq_language }

-- Instants are microseconds since the epoch, ids are numbers.
pub record User : Type 0 where
  pub id : ℕ
  pub email : Text
  pub handle : Text
  pub password_hash : Text
  pub role : Role
  pub must_change_password : Bool
  pub temporary_password_expires_at : Option ℕ
  pub is_email_verified : Bool
  pub status : AccountStatus
  pub status_reason : Option Text
  pub status_changed_at : Option ℕ
  pub deleted_at : Option ℕ
  pub terms_accepted : Bool
  pub terms_accepted_at : Option ℕ
  pub created_at : ℕ
  pub display_name : Option Text
  pub bio : Option Text
  pub profile_visibility : ProfileVisibility
  pub feed_language : FeedLanguage

unfoldable pub is_deleted : User → Bool
is_deleted u = is_some u.deleted_at

unfoldable pub can_log_in : User → Bool
unfolding is_deleted
can_log_in u = (u.status == active) && not (is_deleted u)

unfoldable pub is_administrator : User → Bool
is_administrator u = not (u.role == Role.user)

unfoldable pub change_status : User → AccountStatus → ℕ → Option Text → User
change_status u status at reason = record u {
  status = status;
  status_reason = reason;
  status_changed_at = some at;
}

-- `expires_at is not None and expires_at <= now`
abbrev pub has_passed : Option ℕ → ℕ → Bool
has_passed none now = false
has_passed (some t) now = leb t now

unfoldable pub temporary_password_expired : User → ℕ → Bool
temporary_password_expired u now =
    u.must_change_password && has_passed u.temporary_password_expires_at now

-- An account that is not stored yet waits for the id and the creation time that the database
-- assigns.
abbrev pub Draft : Type 0
Draft = ℕ → ℕ → User
