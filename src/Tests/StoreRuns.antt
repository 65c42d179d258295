-- ===== src/Tests/StoreRuns.antt =====
-- Refresh tokens as a book, cursors, and requests for a reset link.
use udesa_x_users_api.Common.{◌+◌, ◌≤◌, ◌≡◌, refl, List, arith, none, some, [], ◌∷◌, length, codes}
use udesa_x_users_api.Store.RefreshTokens.Once.{
  adds, consumes, revokes_all, Block, commits, rolls_back,
}
use udesa_x_users_api.Store.RefreshTokens.Refinement.{answers-noted_all}
use udesa_x_users_api.Store.RefreshTokens.Book.{answers, noted_all, book}
use udesa_x_users_api.Store.Cursors.{encode_cursor, decode_cursor}
use udesa_x_users_api.Store.Cursors.RoundTrip.{decode_cursor-encode_cursor}
use udesa_x_users_api.Service.PasswordReset.{forgot_password}
use udesa_x_users_api.Service.PasswordReset.Requests.{request_all, request_all-mailed}
use udesa_x_users_api.Service.PasswordReset.Silence.{forgot_password-same_answer}
use udesa_x_users_api.Tests.Demo.{demo, settings, no_rows}
use udesa_x_users_api.Tests.Fixtures.{ana, with_user, with_token, fresh_token}

-- An exchange is rolled back, the token is exchanged, offered again, and one more is added after
-- everything is revoked.
abbrev blocks : List Block
blocks =
    rolls_back (consumes (50 ∷ []) 9 ∷ [])
    ∷ commits (consumes (50 ∷ []) 10 ∷ consumes (50 ∷ []) 20 ∷ [])
    ∷ commits (revokes_all 7 30 ∷ adds 7 41 (52 ∷ []) 900 ∷ [])
    ∷ []

answers-noted_all_example :
    answers blocks (with_token fresh_token) ≡ noted_all blocks (book (with_token fresh_token))
answers-noted_all_example = answers-noted_all blocks (with_token fresh_token) (refl, tt)

-- The ninth of September 2001, a little before two in the morning.
decode_cursor-encode_cursor_example :
    decode_cursor (λ bytes. none) (encode_cursor (1000000000123456, 7)) ≡ some (1000000000123456, 7)
unfolding udesa_x_users_api.Text.Iso.fields_of udesa_x_users_api.Text.Calendar.year_of
    udesa_x_users_api.Text.Calendar.split_year udesa_x_users_api.Text.Calendar.days_in_year
decode_cursor-encode_cursor_example =
    decode_cursor-encode_cursor (λ bytes. none) (1000000000123456, 7) (omega arith) (omega arith)

request_all-mailed_example :
    length
      (request_all settings
        ((1000000000, 97 ∷ []) ∷ (1000000001, 65 ∷ []) ∷ (1000000002, 97 ∷ []) ∷ [])
        (with_user ana)).db.outbox
    ≤ 0 + 3
unfolding udesa_x_users_api.Text.normalise
request_all-mailed_example =
    request_all-mailed settings 1000000000 (97 ∷ [])
      ((1000000001, 65 ∷ []) ∷ (1000000002, 97 ∷ []) ∷ []) (with_user ana) refl
      ((omega arith, refl), ((omega arith, refl), tt))

forgot_password-same_answer_example :
    ((forgot_password settings (97 ∷ []) (record (with_user ana) { db = no_rows })).0
      ≡ (forgot_password settings (97 ∷ []) (with_user ana)).0)
    × ((forgot_password settings (97 ∷ []) (record (with_user ana) { db = no_rows })).1.redis
        ≡ (forgot_password settings (97 ∷ []) (with_user ana)).1.redis)
forgot_password-same_answer_example =
    forgot_password-same_answer settings (97 ∷ []) (with_user ana) no_rows (refl, refl) (refl, refl)

encode_cursor_test :
    encode_cursor (1000000000123456, 7)
    ≡ codes
        "MjAwMS0wOS0wOVQwMTo0Njo0MC4xMjM0NTYrMDA6MDB8MDAwMDAwMDAtMDAwMC0wMDAwLTAwMDAtMDAwMDAwMDAwMDA3"
unfolding encode_cursor udesa_x_users_api.Text.Base64.urlsafe_b64encode
    udesa_x_users_api.Text.Iso.isoformat udesa_x_users_api.Text.Iso.two
    udesa_x_users_api.Text.Base64.sextet_char udesa_x_users_api.Text.Iso.fraction
    udesa_x_users_api.Text.Iso.fields_of udesa_x_users_api.Text.Calendar.year_of
    udesa_x_users_api.Text.Calendar.split_month udesa_x_users_api.Text.Uuid.str_uuid
    udesa_x_users_api.Text.Calendar.split_year udesa_x_users_api.Text.Calendar.month_lengths
    udesa_x_users_api.Text.Uuid.spell udesa_x_users_api.Text.Calendar.days_in_year
encode_cursor_test = refl
