-- ===== src/Tests/ServerRuns.antt =====
-- The routes at concrete requests.
use udesa_x_users_api.Common.{
  ℕ, ◌≡◌, refl, Bool, true, false, Option, none, some, List, [], ◌∷◌, codes,
}
use udesa_x_users_api.Model.Problem.{Problem, says}
use udesa_x_users_api.Integrity.{IsConsistent, IsSound}
use udesa_x_users_api.Api.Bodies.{Libraries, Headers, bearer_token, rejected}
use udesa_x_users_api.Api.Replies.{profile, profile_response}
use udesa_x_users_api.Api.Server.{Call, serve, serve_all}
use udesa_x_users_api.Api.Server.Consistency.{serve_all-IsConsistent}
use udesa_x_users_api.Api.Server.Access.{serve-Permitted}
use udesa_x_users_api.Api.Server.Needs.{Need, Permitted}
use udesa_x_users_api.Tests.Demo.{demo, settings, encode}
use udesa_x_users_api.Tests.Fixtures.{ana, admin, claims, with_user, with_users}

-- Every text is an address, nothing is stripped, and posts-api leaves nobody out.
abbrev libraries : Libraries
libraries = record {
  email_str = some;
  clean = λ s. s;
  other_spelling = λ bytes. none;
  posts_api = λ second viewer ids. some [];
}

-- A refusal that has a detail only.
abbrev not_authenticated : Problem
not_authenticated = record {
  http_status = 401;
  code = "";
  title = "";
  detail = says "Not authenticated";
  retry_after = none;
}

abbrev nobody : Headers
nobody = record { authorization = rejected not_authenticated; internal_token = none }

abbrev ana_signed_in : Headers
ana_signed_in = record { authorization = bearer_token (encode claims); internal_token = none }

abbrev admin_signed_in : Headers
admin_signed_in = record {
  authorization = bearer_token (encode (record claims { sub = 8 }));
  internal_token = none;
}

-- Ana signs in, and an administrator blocks her.
abbrev requests : List (ℕ × Headers × Call)
requests =
    (1000000000, nobody, Call.login (97 ∷ []) (5 ∷ []))
    ∷ (1000000001, admin_signed_in, Call.block_account 7 (codes "spam"))
    ∷ []

ana-IsSound : IsSound ana
unfolding udesa_x_users_api.Model.Account.is_deleted
    udesa_x_users_api.Model.Account.is_administrator udesa_x_users_api.Text.normalise
ana-IsSound = record {
  reason = refl;
  dated = refl;
  never_suspended = refl;
  never_deleted = refl;
  checked = refl;
  due = refl;
  due_role = refl;
  email = refl;
  handle = refl;
}

admin-IsSound : IsSound admin
unfolding udesa_x_users_api.Model.Account.is_deleted
    udesa_x_users_api.Model.Account.is_administrator udesa_x_users_api.Text.normalise
admin-IsSound = record {
  reason = refl;
  dated = refl;
  never_suspended = refl;
  never_deleted = refl;
  checked = refl;
  due = refl;
  due_role = refl;
  email = refl;
  handle = refl;
}

with_users-IsConsistent : IsConsistent (with_users (ana ∷ admin ∷ [])).db
unfolding udesa_x_users_api.Common.beq_text
with_users-IsConsistent = record {
  apart = (refl, (refl, tt));
  sound = (ana-IsSound, (admin-IsSound, tt));
  tokens = tt;
}

serve_all-IsConsistent_example :
    IsConsistent (serve_all libraries settings requests (with_users (ana ∷ admin ∷ []))).db
serve_all-IsConsistent_example =
    serve_all-IsConsistent libraries settings requests (with_users (ana ∷ admin ∷ []))
      with_users-IsConsistent

serve-Permitted_example : Permitted settings ana_signed_in (with_user ana) Need.an_owner false
unfolding serve udesa_x_users_api.Api.Server.route udesa_x_users_api.Api.Routes.Me.get_profile
    udesa_x_users_api.Api.Routes.Me.current_user udesa_x_users_api.Api.CurrentUser.get_current_user
    udesa_x_users_api.Common.beq_text udesa_x_users_api.Cache.Sessions.revoked_before
    udesa_x_users_api.Cache.Sessions.is_token_revoked udesa_x_users_api.Store.Users.get
    udesa_x_users_api.Service.Auth.Blocked.deny_blocked_account
serve-Permitted_example =
    serve-Permitted settings ana_signed_in (with_user ana) libraries Call.get_profile
      (profile (profile_response ana)) refl
