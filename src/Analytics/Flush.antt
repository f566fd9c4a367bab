-- ===== src/Analytics/Flush.antt =====
-- What a flush of consumer.ts leaves in ClickHouse, the dead letters and the committed offsets.
use wince_backend.Prelude.{
  ℕ, suc, ◌≡◌, ap, ◌∙◌, arith, Bool, true, false, List, [], ◌∷◌, ◌++◌, length, append-nil,
}
use wince_backend.Retry.{execute_with_retry}
use wince_backend.Retry.Attempts.{execute_with_retry-resolved}
use wince_backend.Clickhouse.{batch_insert}
use wince_backend.Clickhouse.Chunks.{batch_insert-resolves}
use wince_backend.Analytics.{
  Sink, Config, EventRow, insert_events, commit, after_event_commit, after_event_insert,
  flush_batch,
}

-- What the rows add to the table where the insert goes through, and where it does not.
abbrev pub inserted : Bool → List EventRow → List EventRow
inserted true rows = rows
inserted false rows = []

module _ (cfg : Config) where
  abbrev Kept : List EventRow → Sink → Sink → Type 0
  Kept rows s s' =
      (s'.events ≡ s.events ++ inserted (s.insert_up s.insert_calls) rows)
      × (s'.dead_letters ≡ s.dead_letters)
      × (s'.committed ≡ s.resolved)
      × (s'.insert_calls ≡ suc s.insert_calls)

  commit-Kept :
      (rows : List EventRow) (s : Sink)
      → s.commit_up s.commit_calls ≡ true
      → Kept rows s (after_event_commit cfg rows (commit (insert_events rows s).1))
  unfolding insert_events commit
  commit-Kept rows s c = ground (arith, append-nil s.events)

  flush_batch-once :
      (row : EventRow) (rows : List EventRow) (s : Sink) (more : ℕ)
      → cfg.max_retries ≡ suc more
      → flush_batch cfg (row ∷ rows) s
        ≡ after_event_commit cfg (row ∷ rows) (commit (insert_events (row ∷ rows) s).1)
  unfolding flush_batch
  flush_batch-once row rows s more m =
      let (r, q) = batch_insert-resolves insert_events row rows s in
      let op = batch_insert insert_events (length (row ∷ rows)) (row ∷ rows) in
      ap (λ n. after_event_insert cfg (row ∷ rows) (execute_with_retry n op s)) m
      ∙ ap (after_event_insert cfg (row ∷ rows))
          (execute_with_retry-resolved more op s (insert_events (row ∷ rows) s).1 r q)

  -- With at least one attempt allowed, and whether ClickHouse takes the rows or not, a flush whose
  -- commit goes through makes one insert, adds the rows to the table exactly if it went through,
  -- sends nothing to the dead letters and commits all that was resolved.
  pub flush_batch-outcome :
      (row : EventRow) (rows : List EventRow) (s : Sink) (more : ℕ)
      → cfg.max_retries ≡ suc more
      → s.commit_up s.commit_calls ≡ true
      → let s' = flush_batch cfg (row ∷ rows) s in
        (s'.events ≡ s.events ++ inserted (s.insert_up s.insert_calls) (row ∷ rows))
        × (s'.dead_letters ≡ s.dead_letters)
        × (s'.committed ≡ s.resolved)
        × (s'.insert_calls ≡ suc s.insert_calls)
  flush_batch-outcome row rows s more m c =
      rw (flush_batch-once row rows s more m) (commit-Kept (row ∷ rows) s c)
