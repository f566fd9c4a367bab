-- ===== src/Analytics/Offsets.antt =====
-- A flush of the analytics consumer resolves no offset and forgets none.
use Prim.Native.String.{String}
use wince_backend.Prelude.{ℕ, ◌≡◌, arith, Bool, true, false, List, [], ◌∷◌, length}
use wince_backend.Clickhouse.{BatchResult, batch_insert}
use wince_backend.Clickhouse.Chunks.{batch_insert-keeps}
use wince_backend.Retry.{RetryResult, success, exhausted, returned_undefined, execute_with_retry}
use wince_backend.Retry.Attempts.{execute_with_retry-keeps}
use wince_backend.Analytics.{
  Sink, Config, EventRow, InterventionEventRow, DeadReason, insert_events,
  insert_intervention_events, send_to_dlq, send_all, commit, flush_batch, flush_intervention_batch,
  mirror_rows, mark_inserted, give_up, after_event_commit, after_intervention_commit,
  after_event_insert, after_intervention_insert,
}

module _ (l : List ℕ) where
  -- The offsets resolved so far are `l`.
  abbrev pub Resolves : Sink → Type 0
  Resolves s = s.resolved ≡ l

  insert_events-Resolves :
      (rows : List EventRow) (s : Sink) → Resolves s → Resolves (insert_events rows s).1
  unfolding insert_events
  insert_events-Resolves rows s h = ground arith

  insert_intervention_events-Resolves :
      (rows : List InterventionEventRow) (s : Sink)
      → Resolves s
      → Resolves (insert_intervention_events rows s).1
  unfolding insert_intervention_events
  insert_intervention_events-Resolves rows s h = ground arith

  pub send_to_dlq-Resolves :
      (r : DeadReason) (k : String) (s : Sink) → Resolves s → Resolves (send_to_dlq r k s)
  unfolding send_to_dlq
  send_to_dlq-Resolves r k s h = ground arith

  send_all-Resolves :
      (r : DeadReason) (ks : List String) (s : Sink) → Resolves s → Resolves (send_all r ks s)
  unfolding send_all
  send_all-Resolves r [] s h = h
  send_all-Resolves r (k ∷ ks) s h =
      send_all-Resolves r ks (send_to_dlq r k s) (send_to_dlq-Resolves r k s h)

  commit-Resolves : (s : Sink) → Resolves s → Resolves (commit s).1
  unfolding commit
  commit-Resolves s h = ground arith

  mirror_rows-Resolves :
      (cfg : Config) (rows : List InterventionEventRow) (s : Sink)
      → Resolves s
      → Resolves (mirror_rows cfg rows s)
  unfolding mirror_rows
  mirror_rows-Resolves cfg rows s h = ground arith

  mark_inserted-Resolves :
      (cfg : Config) (rows : List EventRow) (s : Sink)
      → Resolves s
      → Resolves (mark_inserted cfg rows s)
  mark_inserted-Resolves cfg rows s h = ground arith

  give_up-Resolves :
      (cfg : Config) (r : DeadReason) (ks : List String) (s : Sink)
      → Resolves s
      → Resolves (give_up cfg r ks s)
  give_up-Resolves cfg r ks s h = commit-Resolves (send_all r ks s) (send_all-Resolves r ks s h)

  after_event_commit-Resolves :
      (cfg : Config) (rows : List EventRow) (b : Bool) (s : Sink)
      → Resolves s
      → Resolves (after_event_commit cfg rows (b, s))
  after_event_commit-Resolves cfg rows true s h = mark_inserted-Resolves cfg rows s h
  after_event_commit-Resolves cfg rows false s h = give_up-Resolves cfg _ _ s h

  after_event_insert-Resolves :
      (cfg : Config) (rows : List EventRow) (r : RetryResult BatchResult) (s : Sink)
      → Resolves s
      → Resolves (after_event_insert cfg rows (r, s))
  after_event_insert-Resolves cfg rows (success r) s h =
      let (b, s') = commit s in after_event_commit-Resolves cfg rows b s' (commit-Resolves s h)
  after_event_insert-Resolves cfg rows exhausted s h = give_up-Resolves cfg _ _ s h
  after_event_insert-Resolves cfg rows returned_undefined s h = give_up-Resolves cfg _ _ s h

  pub flush_batch-Resolves :
      (cfg : Config) (rows : List EventRow) (s : Sink)
      → Resolves s
      → Resolves (flush_batch cfg rows s)
  unfolding flush_batch
  flush_batch-Resolves cfg [] s h = h
  flush_batch-Resolves cfg (row ∷ rows) s h =
      let op = batch_insert insert_events (length (row ∷ rows)) (row ∷ rows) in
      let (r, s') = execute_with_retry cfg.max_retries op s in
      after_event_insert-Resolves cfg (row ∷ rows) r s' (
        execute_with_retry-keeps Resolves op
          (batch_insert-keeps Resolves insert_events insert_events-Resolves _ _) cfg.max_retries s
          h)

  after_intervention_commit-Resolves :
      (cfg : Config) (rows : List InterventionEventRow) (b : Bool) (s : Sink)
      → Resolves s
      → Resolves (after_intervention_commit cfg rows (b, s))
  after_intervention_commit-Resolves cfg rows true s h = mirror_rows-Resolves cfg rows s h
  after_intervention_commit-Resolves cfg rows false s h = give_up-Resolves cfg _ _ s h

  after_intervention_insert-Resolves :
      (cfg : Config) (rows : List InterventionEventRow) (r : RetryResult BatchResult) (s : Sink)
      → Resolves s
      → Resolves (after_intervention_insert cfg rows (r, s))
  after_intervention_insert-Resolves cfg rows (success r) s h =
      let (b, s') = commit s in
      after_intervention_commit-Resolves cfg rows b s' (commit-Resolves s h)
  after_intervention_insert-Resolves cfg rows exhausted s h = give_up-Resolves cfg _ _ s h
  after_intervention_insert-Resolves cfg rows returned_undefined s h = give_up-Resolves cfg _ _ s h

  pub flush_intervention_batch-Resolves :
      (cfg : Config) (rows : List InterventionEventRow) (s : Sink)
      → Resolves s
      → Resolves (flush_intervention_batch cfg rows s)
  unfolding flush_intervention_batch
  flush_intervention_batch-Resolves cfg [] s h = h
  flush_intervention_batch-Resolves cfg (row ∷ rows) s h =
      let op = batch_insert insert_intervention_events (length (row ∷ rows)) (row ∷ rows) in
      let (r, s') = execute_with_retry cfg.max_retries op s in
      after_intervention_insert-Resolves cfg (row ∷ rows) r s' (
        execute_with_retry-keeps Resolves op
          (batch_insert-keeps Resolves insert_intervention_events
            insert_intervention_events-Resolves _ _)
          cfg.max_retries s h)
