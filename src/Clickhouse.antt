-- ===== src/Clickhouse.antt =====
-- `batchInsert` in packages/clickhouse_client/src/lib/clickhouseClient.ts: the rows in chunks, each of
-- which is inserted once. The workers share an index, so the number of them changes when a chunk is
-- inserted and not whether; here they are inserted in their order. The table's name is not empty.
mod Tests
pub mod Chunks
use wince_backend.Prelude.{
  ℕ, zero, suc, ◌+◌, Bool, true, false, some, List, [], ◌∷◌, length, take, drop,
}
use wince_backend.Retry.{Attempt, resolved, rejected}

-- `data.slice(i, i + batchSize)` for each i; the fuel is the number of rows
abbrev pub chunks_of {ℓ} : {X : Type ℓ} → ℕ → ℕ → List X → List (List X)
chunks_of fuel size [] = []
chunks_of zero size (x ∷ xs) = []
chunks_of (suc fuel) size (x ∷ xs) = take size (x ∷ xs) ∷ chunks_of fuel size (drop size (x ∷ xs))

pub record BatchResult : Type 0 where
  pub total_rows : ℕ
  pub batches_processed : ℕ
  pub successful_batches : ℕ
  pub failed_batches : ℕ

module _ {S Row : Type 0} (insert : List Row → S → Bool × S) where
  abbrev pub count_batch : Bool → ℕ × ℕ → ℕ × ℕ
  count_batch true (good, bad) = (suc good, bad)
  count_batch false (good, bad) = (good, suc bad)

  -- `processBatch` of every chunk, which counts a failure and goes on
  pub process_batches : List (List Row) → ℕ × ℕ → S → (ℕ × ℕ) × S
  process_batches [] counts s = (counts, s)
  process_batches (batch ∷ batches) counts s =
      let (done, s') = insert batch s in process_batches batches (count_batch done counts) s'

  abbrev result_of : ℕ → ℕ → ℕ × ℕ → BatchResult
  result_of rows batches (good, bad) = record {
    total_rows = rows;
    batches_processed = batches;
    successful_batches = good;
    failed_batches = bad;
  }

  -- It rejects where there are no rows, and resolves whatever became of the chunks.
  pub batch_insert : ℕ → List Row → S → Attempt BatchResult × S
  batch_insert batch_size [] s = (rejected, s)
  batch_insert batch_size (row ∷ rows) s =
      let batches = chunks_of (length (row ∷ rows)) batch_size (row ∷ rows) in
      let (counts, s') = process_batches batches (0, 0) s in
      (resolved (some (result_of (length (row ∷ rows)) (length batches) counts)), s')
