-- ===== src/Clickhouse/Tests.antt =====
-- Three rows in chunks of two.
use wince_backend.Prelude.{ℕ, ◌≡◌, ◌≤◌, arith, List, [], ◌∷◌, All, length}
use wince_backend.Clickhouse.{chunks_of}
use wince_backend.Clickhouse.Chunks.{concat, concat-chunks_of}

abbrev three : List ℕ
three = 1 ∷ 2 ∷ 3 ∷ []

concat-chunks_of_example :
    (concat (chunks_of 3 2 three) ≡ three) × All (λ c. length c ≤ 2) (chunks_of 3 2 three)
concat-chunks_of_example = concat-chunks_of 3 2 three (omega arith) (omega arith)
