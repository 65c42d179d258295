-- ===== src/Model/Problem.antt =====
-- src/users_api/app/errors.py, and the exceptions that the rest of the code can meet.
use udesa_x_users_api.Common.{ℕ, Option, String, Text}

-- A detail that an f-string builds keeps its values apart from the text around it.
pub data Detail : Type 0 where
  says : String → Detail
  says_with : String → ℕ → String → Detail
  says_text : String → Text → Detail
  says_two : String → ℕ → String → ℕ → String → Detail

-- `ProblemError`; of the headers only `Retry-After` is ever set.
pub record Problem : Type 0 where
  pub http_status : ℕ
  pub code : String
  pub title : String
  pub detail : Detail
  pub retry_after : Option ℕ

-- What a call can raise. `reused` is `ReusedRefreshTokenError`, which its route handles; the last
-- four stand for the exceptions that nobody catches: a unique column, a text too long for its column,
-- an attribute of `None`, and a command that Redis refuses.
pub data Error : Type 0 where
  problem : Problem → Error
  reused : Problem → Error
  integrity_error : Error
  data_error : Error
  attribute_error : Error
  response_error : Error
