-- ===== src/Batcher/Tests.antt =====
-- Two rows that are added and rolled back.
use wince_backend.Prelude.{ℕ, ◌≡◌, List, [], ◌∷◌}
use wince_backend.Batcher.{Batcher, BatchOffset, rollback}
use wince_backend.Batcher.Rollback.{add_all, rollback-add_all}

abbrev offset : ℕ → BatchOffset
offset n = record { topic = "events"; partition = 0; offset = n }

abbrev batcher : Batcher ℕ
batcher = record {
  rows = 1 ∷ [];
  offsets = offset 0 ∷ [];
  last_drain_at = 0;
  batch_size = 9;
  batch_timeout_ms = 5;
}

abbrev pairs : List (ℕ × BatchOffset)
pairs = (2, offset 1) ∷ (3, offset 2) ∷ []

rollback-add_all_example : rollback 2 (add_all pairs batcher) ≡ batcher
rollback-add_all_example = rollback-add_all pairs batcher
