-- ===== src/Analytics/Loop/Timed.antt =====
-- A batch of the analytics consumer in which nothing throws.
use wince_backend.Prelude.{
  ℕ, suc, Bool, true, false, arith, ◌≡◌, refl, ap, ◌∙◌, sym, Option, none, some, List, [], ◌∷◌,
  ◌++◌, map, All, Bool-cases, if-cases, inl, inr, append-nil, append_assoc,
}
use wince_backend.Batcher.{Batcher}
use wince_backend.Analytics.{
  ParsedRow, no_intervention, range_error, parsed_row, to_click_house_row, Sink, Config, EventRow,
  InterventionEventRow, KafkaEnrichedEvent, is_intervention_lifecycle_event,
  parse_intervention_event_row,
}
use wince_backend.Analytics.Offsets.{Resolves}
use wince_backend.Analytics.Loop.{
  Message, Turn, goes_on, Run, Batch, process, handle_event, handle_intervention,
  flush_expired_events, flush_expired_interventions, parse_enriched_event, each_batch, is_duplicate,
  handle_row, finish, flush_expired,
}
use wince_backend.Analytics.Loop.Resolved.{
  Handles, full_events-threw, full_interventions-threw, handle_event-Handles, finish-Resolves,
}

module _ (cfg : Config) (b : Batch) where
  -- the time of the event is valid, where there is an event
  abbrev pub is_timed : Option KafkaEnrichedEvent → Bool
  is_timed none = true
  is_timed (some e) = e.valid_ts

  intervention_row-timed :
      (e : KafkaEnrichedEvent)
      → e.valid_ts ≡ true
      → ¬ (parse_intervention_event_row e ≡ range_error)
  intervention_row-timed e v q = ground (arith, v, q)

  handle_intervention-returns :
      (m : Message) (row : ParsedRow) (r : Run)
      → ¬ (row ≡ range_error)
      → (handle_intervention cfg b m row r).threw ≡ r.threw
  handle_intervention-returns m no_intervention r v = refl
  handle_intervention-returns m range_error r v = absurd (v refl)
  handle_intervention-returns m (parsed_row row) r v = full_interventions-threw cfg b _

  handle_row-returns :
      (m : Message) (e : KafkaEnrichedEvent) (r : Run)
      → e.valid_ts ≡ true
      → (handle_row cfg b m (to_click_house_row e) r).threw ≡ r.threw
  handle_row-returns m e r v = rw v (full_events-threw cfg b _)

  handle_event-returns :
      (m : Message) (e : Option KafkaEnrichedEvent) (r : Run)
      → is_timed e ≡ true
      → (handle_event cfg b m e r).threw ≡ r.threw
  unfolding handle_event
  handle_event-returns m none r v = refl
  handle_event-returns m (some e) r v = elim (Bool-cases (is_duplicate cfg b e.eid r)) [
    | inl q ↦ rw q refl
    | inr q ↦ rw q (elim (Bool-cases (is_intervention_lifecycle_event e.t)) [
      | inl l ↦ rw l (
          handle_intervention-returns m (parse_intervention_event_row e) r
            (intervention_row-timed e v))
      | inr l ↦ rw l (handle_row-returns m e r v)
    ])
  ]

  Handles-returns :
      (m : Message) (r r' : Run)
      → r'.threw ≡ false
      → Handles cfg b m r r'
      → Resolves (r.sink.resolved ++ m.offset ∷ []) r'.sink
  Handles-returns m r r' t (inl (_, h)) = h
  Handles-returns m r r' t (inr (q, h)) = ground (arith, t, q)

  -- The run went through the messages without an error.
  abbrev pub ResolvesAll : List ℕ → List Message → Run → Type 0
  ResolvesAll l ms r = (r.threw ≡ false) × (r.sink.resolved ≡ l ++ map (λ m. m.offset) ms)

  abbrev pub AllTimed : List Message → Type 0
  AllTimed ms = All (λ m. is_timed (parse_enriched_event b.parse_json m.value) ≡ true) ms

  process-Resolves :
      (turns : ℕ → Turn) (n : ℕ) (ms : List Message) (r : Run)
      → ((i : ℕ) → turns i ≡ goes_on)
      → ((i : ℕ) → b.beats i ≡ true)
      → AllTimed ms
      → r.threw ≡ false
      → ResolvesAll r.sink.resolved ms (process cfg b turns n ms r)
  unfolding process
  process-Resolves turns n [] r g u a t = (t, sym (append-nil r.sink.resolved))
  process-Resolves turns n (m ∷ ms) r g u a t =
      let e = parse_enriched_event b.parse_json m.value in
      let r' = handle_event cfg b m e r in
      let t' = handle_event-returns m e r a.0 ∙ t in
      let (q, all) = process-Resolves turns (suc n) ms r' g u a.1 t' in
      let rest = process cfg b turns (suc n) ms in
      rw (g n) (
        if-cases (ResolvesAll r.sink.resolved (m ∷ ms)) r'.threw r' _ (λ y. ground (arith, t', y))
          (λ _.
            if-cases (ResolvesAll r.sink.resolved (m ∷ ms)) (b.beats n) (rest r') _
              (λ _. (
                q,
                all
                    ∙ ap (λ l. l ++ map (λ m. m.offset) ms)
                        (Handles-returns m r r' t' (handle_event-Handles cfg b m e r t))
                    ∙ append_assoc r.sink.resolved (m.offset ∷ []) (map (λ m. m.offset) ms),
              ))
              (λ y. ground (arith, u n, y))))

  expired-threw : (r : Run) → (flush_expired cfg b r).threw ≡ r.threw
  unfolding flush_expired_events flush_expired_interventions
  expired-threw r = ground arith

  finish-threw : (r : Run) → (finish cfg b r).threw ≡ r.threw
  finish-threw r = if-cases (λ x. x.threw ≡ r.threw) r.threw r _ (λ _. refl) (λ _. expired-threw r)

  -- A batch whose turns all go on, whose heartbeats all succeed, and where each message that is an
  -- event has a valid time, ends without an error and resolves the offset of every message, in their
  -- order, and no other, whatever ClickHouse, PostgreSQL and the dead letters do.
  pub each_batch-Resolves :
      (turns : ℕ → Turn) (ms : List Message) (s : Sink) (e : Batcher EventRow)
      (i : Batcher InterventionEventRow)
      → ((n : ℕ) → turns n ≡ goes_on)
      → ((n : ℕ) → b.beats n ≡ true)
      → AllTimed ms
      → ((each_batch cfg b turns ms (s, e, i)).threw ≡ false)
        × ((each_batch cfg b turns ms (s, e, i)).sink.resolved
            ≡ s.resolved ++ map (λ m. m.offset) ms)
  unfolding each_batch
  each_batch-Resolves turns ms s e i g u a =
      let (t, h) = process-Resolves turns 0 ms _ g u a refl in
      (finish-threw _ ∙ t, finish-Resolves cfg b (s.resolved ++ map (λ m. m.offset) ms) _ h)
