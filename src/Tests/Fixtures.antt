-- ===== src/Tests/Fixtures.antt =====
-- Accounts, tokens and states for the runs.
use udesa_x_users_api.Common.{List, ℕ, true, false, none, some, [], ◌∷◌}
use udesa_x_users_api.Model.Account.{Role, active, suspended, everyone, every, User}
use udesa_x_users_api.Model.Token.{EmailVerificationToken, RefreshToken, PasswordResetToken}
use udesa_x_users_api.Model.Event.{
  user_deleted_v1, OutboxRow, AuditEntry, report_resolved, details_reports_count,
}
use udesa_x_users_api.Platform.{Claims}
use udesa_x_users_api.World.State.{World}
use udesa_x_users_api.Tests.Demo.{demo, no_rows, empty_world}

-- Her password is the text of one character, 5.
abbrev pub ana : User
ana = record {
  id = 7;
  email = 97 ∷ [];
  handle = 64 ∷ 97 ∷ [];
  password_hash = 1 ∷ 5 ∷ [];
  role = Role.user;
  must_change_password = false;
  temporary_password_expires_at = none;
  is_email_verified = true;
  status = active;
  status_reason = none;
  status_changed_at = none;
  deleted_at = none;
  terms_accepted = true;
  terms_accepted_at = some 1;
  created_at = 1;
  display_name = none;
  bio = none;
  profile_visibility = everyone;
  feed_language = every;
}

abbrev pub blocked_ana : User
blocked_ana = record ana {
  status = suspended;
  status_reason = some (115 ∷ []);
  status_changed_at = some 900000000;
}

-- An administrator whose temporary password has expired.
abbrev pub root : User
root = record ana {
  id = 8;
  email = 114 ∷ [];
  handle = 64 ∷ 114 ∷ [];
  role = Role.superadmin;
  must_change_password = true;
  temporary_password_expires_at = some 999000000;
}

abbrev pub fresh_token : RefreshToken
fresh_token = record {
  id = 30;
  user_id = 7;
  family_id = 40;
  token_hash = 50 ∷ [];
  expires_at = 2000000000;
  used_at = none;
  revoked_at = none;
}

abbrev pub used_token : RefreshToken
used_token = record fresh_token { used_at = some 900000000 }

abbrev pub reset_link : ℕ → PasswordResetToken
reset_link user_id = record {
  id = 31;
  user_id = user_id;
  token_hash = 51 ∷ [];
  expires_at = 1600000000;
  used_at = none;
}

abbrev pub with_user : User → World
with_user u = record empty_world { db = record no_rows { users = u ∷ [] } }

abbrev pub with_token : RefreshToken → World
with_token t = record empty_world {
  db = record no_rows { users = ana ∷ []; refresh_tokens = t ∷ [] };
}

abbrev pub with_link : User → World
with_link u = record empty_world {
  db = record no_rows { users = u ∷ []; reset_tokens = reset_link u.id ∷ [] };
}

-- The claims of a token that expires 900 seconds after it was issued, and the token.
abbrev pub claims : Claims
claims = record {
  iss = 1 ∷ [];
  sub = 7;
  role = [];
  handle = [];
  profile_visibility = [];
  jti = 60;
  iat = 600;
  exp = 1500;
}

abbrev pub row : ℕ → ℕ → OutboxRow
row id created_at = record {
  event = record { id = id; time = created_at; payload = user_deleted_v1 7 };
  created_at = created_at;
}

abbrev pub entry : AuditEntry
entry = record {
  id = 70;
  occurred_at = 5;
  actor_id = 8;
  actor_email = [];
  action = report_resolved;
  target_id = 7;
  details = details_reports_count 6;
}

abbrev pub email_link : EmailVerificationToken
email_link = record {
  id = 32;
  user_id = 7;
  token_hash = 53 ∷ [];
  expires_at = 1600000000;
  used_at = none;
}

-- An administrator in order.
abbrev pub admin : User
admin = record root { must_change_password = false; temporary_password_expires_at = none }

abbrev pub with_email_link : World
with_email_link = record empty_world {
  db = record no_rows {
    users = record ana { is_email_verified = false } ∷ [];
    verification_tokens = email_link ∷ [];
  };
}

abbrev pub with_users : List User → World
with_users users = record empty_world { db = record no_rows { users = users } }
