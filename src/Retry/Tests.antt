-- ===== src/Retry/Tests.antt =====
-- An operation whose third call is the first to resolve.
use wince_backend.Prelude.{ℕ, leb, Bool}
use wince_backend.Retry.Attempts.{Ends, execute_with_retry-Ends}

abbrev up : ℕ → Bool
up n = leb 2 n

abbrev answer : ℕ
answer = 5

execute_with_retry-Ends_example : Ends up answer 3 0
execute_with_retry-Ends_example = execute_with_retry-Ends up answer 2 0
