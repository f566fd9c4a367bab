-- ===== src/Analytics/Loop/Bounds.antt =====
-- The buffers of the analytics consumer stay below the size at which they are flushed.
use wince_backend.Prelude.{
  ℕ, suc, ◌<◌, Bool, arith, not, ◌&&◌, Option, none, some, List, [], ◌∷◌, Bool-cases, if-cases, inl,
  inr,
}
use wince_backend.Batcher.{
  Batcher, BatchOffset, size, is_empty, is_time_expired, is_size_full, add, drain, rollback,
}
use wince_backend.Batcher.Rollback.{size-add, size-rollback, size-drain}
use wince_backend.Analytics.{
  ParsedRow, no_intervention, range_error, parsed_row, Sink, Config, EventRow, InterventionEventRow,
  KafkaEnrichedEvent, parse_intervention_event_row, is_intervention_lifecycle_event,
  to_click_house_row,
}
use wince_backend.Analytics.Loop.{
  Message, Turn, goes_on, stopping, stale, Run, Batch, process, handle_event, handle_intervention,
  flush_full_events, flush_full_interventions, flush_expired_events, flush_expired_interventions,
  each_batch, take_turn, after_message, handle_row, finish, is_duplicate, batch_offset,
}

-- Fewer rows than the size at which the batcher is flushed.
abbrev pub IsBelow : {T : Type 0} → Batcher T → Type 0
IsBelow b = size b < b.batch_size

pub record IsBounded (r : Run) : Type 0 where
  pub events : IsBelow r.batcher
  pub lifecycle : IsBelow r.interventions

module _ {T : Type 0} where
  IsBelow-drain : (now : ℕ) (b : Batcher T) → 0 < b.batch_size → IsBelow (drain now b).1
  IsBelow-drain now b p = omega (arith, p, (size-drain now b).0, (size-drain now b).1)

  IsBelow-rollback : (count : ℕ) (b : Batcher T) → IsBelow b → IsBelow (rollback count b)
  IsBelow-rollback count b h =
      omega (arith, h, (size-rollback count b).0, (size-rollback count b).1)

  add-positive :
      (row : T) (o : BatchOffset) (b : Batcher T) → IsBelow b → 0 < (add row o b).batch_size
  add-positive row o b h = omega (arith, h, (size-add row o b).1)

module _ (cfg : Config) (b : Batch) where
  flush_full_events-IsBounded :
      (r : Run)
      → 0 < r.batcher.batch_size
      → IsBelow r.interventions
      → IsBounded (flush_full_events cfg b r)
  unfolding flush_full_events
  flush_full_events-IsBounded r p h = elim (Bool-cases (is_size_full r.batcher)) [
    | inl q ↦ rw q (record { events = IsBelow-drain b.now r.batcher p; lifecycle = h })
    | inr q ↦ rw q (record { events = ground arith; lifecycle = h })
  ]

  flush_full_interventions-IsBounded :
      (r : Run)
      → 0 < r.interventions.batch_size
      → IsBelow r.batcher
      → IsBounded (flush_full_interventions cfg b r)
  unfolding flush_full_interventions
  flush_full_interventions-IsBounded r p h = elim (Bool-cases (is_size_full r.interventions)) [
    | inl q ↦ rw q (record { events = h; lifecycle = IsBelow-drain b.now r.interventions p })
    | inr q ↦ rw q (record { events = h; lifecycle = ground arith })
  ]

  handle_intervention-IsBounded :
      (m : Message) (row : ParsedRow) (r : Run)
      → IsBounded r
      → IsBounded (handle_intervention cfg b m row r)
  handle_intervention-IsBounded m no_intervention r h = record {
    events = h.events;
    lifecycle = h.lifecycle;
  }
  handle_intervention-IsBounded m range_error r h = record {
    events = h.events;
    lifecycle = h.lifecycle;
  }
  handle_intervention-IsBounded m (parsed_row row) r h =
      flush_full_interventions-IsBounded _ (add-positive row _ r.interventions h.lifecycle) h.events

  handle_row-IsBounded :
      (m : Message) (row : Option EventRow) (r : Run)
      → IsBounded r
      → IsBounded (handle_row cfg b m row r)
  handle_row-IsBounded m none r h = record { events = h.events; lifecycle = h.lifecycle }
  handle_row-IsBounded m (some row) r h =
      flush_full_events-IsBounded _ (add-positive row (batch_offset cfg b m) r.batcher h.events)
        h.lifecycle

  handle_event-IsBounded :
      (m : Message) (e : Option KafkaEnrichedEvent) (r : Run)
      → IsBounded r
      → IsBounded (handle_event cfg b m e r)
  unfolding handle_event
  handle_event-IsBounded m none r h = record { events = h.events; lifecycle = h.lifecycle }
  handle_event-IsBounded m (some e) r h = elim (Bool-cases (is_duplicate cfg b e.eid r)) [
    | inl q ↦ rw q (record { events = h.events; lifecycle = h.lifecycle })
    | inr q ↦ rw q (elim (Bool-cases (is_intervention_lifecycle_event e.t)) [
      | inl l ↦ rw l (handle_intervention-IsBounded m (parse_intervention_event_row e) r h)
      | inr l ↦ rw l (handle_row-IsBounded m (to_click_house_row e) r h)
    ])
  ]

  after_message-IsBounded :
      (beat : Bool) (rest : Run → Run) (r : Run)
      → ((r : Run) → IsBounded r → IsBounded (rest r))
      → IsBounded r
      → IsBounded (after_message cfg b beat rest r)
  after_message-IsBounded beat rest r k h =
      if-cases IsBounded r.threw r _ (λ _. h)
        (λ _.
          if-cases IsBounded beat (rest r) _ (λ _. k r h)
            (λ _. record { events = h.events; lifecycle = h.lifecycle }))

  take_turn-IsBounded :
      (t : Turn) (beat : Bool) (rest : Run → Run) (m : Message) (r : Run)
      → ((r : Run) → IsBounded r → IsBounded (rest r))
      → IsBounded r
      → IsBounded (take_turn cfg b t beat rest m r)
  take_turn-IsBounded goes_on beat rest m r k h =
      after_message-IsBounded beat rest _ k (handle_event-IsBounded m _ r h)
  take_turn-IsBounded stopping beat rest m r k h = record {
    events = IsBelow-rollback r.rows_added r.batcher h.events;
    lifecycle = IsBelow-rollback r.intervention_rows_added r.interventions h.lifecycle;
  }
  take_turn-IsBounded stale beat rest m r k h = record {
    events = IsBelow-drain b.now r.batcher (omega (arith, h.events));
    lifecycle = IsBelow-drain b.now r.interventions (omega (arith, h.lifecycle));
  }

  process-IsBounded :
      (turns : ℕ → Turn) (n : ℕ) (ms : List Message) (r : Run)
      → IsBounded r
      → IsBounded (process cfg b turns n ms r)
  unfolding process
  process-IsBounded turns n [] r h = h
  process-IsBounded turns n (m ∷ ms) r h =
      take_turn-IsBounded (turns n) (b.beats n) (process cfg b turns (suc n) ms) m r
        (process-IsBounded turns (suc n) ms) h

  flush_expired_events-IsBounded :
      (r : Run) → IsBounded r → IsBounded (flush_expired_events cfg b r)
  unfolding flush_expired_events
  flush_expired_events-IsBounded r h =
      elim (Bool-cases (not (is_empty r.batcher) && is_time_expired b.now r.batcher)) [
        | inl q ↦ rw q (record {
          events = IsBelow-drain b.now r.batcher (omega (arith, h.events));
          lifecycle = h.lifecycle;
        })
        | inr q ↦ rw q h
      ]

  flush_expired_interventions-IsBounded :
      (r : Run) → IsBounded r → IsBounded (flush_expired_interventions cfg b r)
  unfolding flush_expired_interventions
  flush_expired_interventions-IsBounded r h =
      elim (Bool-cases (not (is_empty r.interventions) && is_time_expired b.now r.interventions)) [
        | inl q ↦ rw q (record {
          events = h.events;
          lifecycle = IsBelow-drain b.now r.interventions (omega (arith, h.lifecycle));
        })
        | inr q ↦ rw q h
      ]

  finish-IsBounded : (r : Run) → IsBounded r → IsBounded (finish cfg b r)
  finish-IsBounded r h =
      if-cases IsBounded r.threw r _ (λ _. h)
        (λ _. flush_expired_interventions-IsBounded _ (flush_expired_events-IsBounded r h))

  -- A batch that begins with both buffers below their sizes ends so, however its turns go.
  pub each_batch-IsBounded :
      (turns : ℕ → Turn) (ms : List Message) (s : Sink) (e : Batcher EventRow)
      (i : Batcher InterventionEventRow)
      → IsBelow e
      → IsBelow i
      → IsBounded (each_batch cfg b turns ms (s, e, i))
  unfolding each_batch
  each_batch-IsBounded turns ms s e i h k =
      finish-IsBounded _ (process-IsBounded turns 0 ms _ (record { events = h; lifecycle = k }))
