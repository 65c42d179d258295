-- ===== src/Tests/SearchRuns.antt =====
-- Searches and formats.
use udesa_x_users_api.Common.{ℕ, ◌≡◌, refl, [], ◌∷◌, none, some, true, false, arith, Bool}
use udesa_x_users_api.World.State.{World}
use udesa_x_users_api.Store.Searches.{ilike, pattern_of, newest_first, matches_account}
use udesa_x_users_api.Store.Searches.Pattern.{ilike-pattern_of}
use udesa_x_users_api.Store.Searches.Visits.{visit, visit-whole}
use udesa_x_users_api.World.Exec.{ok}
use udesa_x_users_api.Common.{List}
use udesa_x_users_api.Model.Account.{User}
use udesa_x_users_api.Service.Search.{collect, first_page}
use udesa_x_users_api.Service.Search.Loop.{Answers, shown, left, collect-finds}
use udesa_x_users_api.Api.Schemas.{Checked, valid, enforce_handle_format}
use udesa_x_users_api.Api.Schemas.Formats.{enforce_handle_format-is_run}
use udesa_x_users_api.Common.{codes}
use udesa_x_users_api.Tests.Demo.{demo, no_rows, empty_world}
use udesa_x_users_api.Tests.Fixtures.{ana}

ilike-pattern_of_example : ilike false (pattern_of (codes "_B")) (codes "a_b") ≡ true
unfolding udesa_x_users_api.Text.lower_char
ilike-pattern_of_example = ilike-pattern_of (codes "_B") (codes "a_b")

-- Three accounts with an `a` in the handle, of two instants.
abbrev crowd : World
crowd = record empty_world {
  db = record no_rows {
    users =
        ana
        ∷ record ana { id = 9; email = 99 ∷ []; handle = 64 ∷ 97 ∷ 99 ∷ []; created_at = 2 }
        ∷ record ana { id = 10; email = 100 ∷ []; handle = 64 ∷ 97 ∷ 100 ∷ [] }
        ∷ [];
  };
}

visit-whole_example :
    visit (97 ∷ []) 1 crowd 4 none
    ≡ record ana { id = 9; email = 99 ∷ []; handle = 64 ∷ 97 ∷ 99 ∷ []; created_at = 2 }
      ∷ record ana { id = 10; email = 100 ∷ []; handle = 64 ∷ 97 ∷ 100 ∷ [] }
      ∷ ana
      ∷ []
unfolding udesa_x_users_api.Common.beq_text matches_account
    udesa_x_users_api.Store.Searches.escape_like udesa_x_users_api.Text.lower_char
visit-whole_example = visit-whole (97 ∷ []) 0 crowd 4 (refl, (refl, (refl, tt))) (omega arith)

enforce_handle_format-is_run_example : enforce_handle_format (codes "@Anna") ≡ valid (codes "@anna")
unfolding udesa_x_users_api.Api.Schemas.is_handle_char udesa_x_users_api.Text.lower
enforce_handle_format-is_run_example = enforce_handle_format-is_run 64 (codes "Anna")

-- No account is blocked.
nobody-Answers : Answers (λ ids. some []) (λ u. false)
nobody-Answers candidates = ([], refl, refl)

collect-finds_example :
    (v : List User) × (collect (λ ids. some []) (97 ∷ []) true 4 none [] crowd ≡ (ok v, crowd))
    × (first_page v ≡ first_page (shown (λ u. false) (left (97 ∷ []) true crowd none)))
unfolding udesa_x_users_api.Store.Searches.matches_public
    udesa_x_users_api.Store.Searches.escape_like udesa_x_users_api.Text.lower_char
    udesa_x_users_api.Common.beq_text
collect-finds_example =
    collect-finds (λ ids. some []) (λ u. false) nobody-Answers (97 ∷ []) true crowd
      (refl, (refl, (refl, tt))) 4 none [] (omega arith)
