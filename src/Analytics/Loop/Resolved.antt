-- ===== src/Analytics/Loop/Resolved.antt =====
-- The offsets that a batch of the analytics consumer resolves.
use wince_backend.Prelude.{
  ℕ, suc, Bool, true, false, arith, ◌⊎◌, ◌≡◌, refl, ap, ◌∙◌, sym, not, ◌&&◌, Option, none, some,
  List, [], ◌∷◌, ◌++◌, map, Bool-cases, if-cases, inl, inr, append-nil, append_assoc,
}
use wince_backend.Batcher.{Batcher, is_empty, is_time_expired, is_size_full}
use wince_backend.Analytics.{
  ParsedRow, no_intervention, range_error, parsed_row, to_click_house_row, Sink, Config, EventRow,
  InterventionEventRow, KafkaEnrichedEvent, parse_error, is_intervention_lifecycle_event,
  parse_intervention_event_row,
}
use wince_backend.Analytics.Offsets.{
  Resolves, send_to_dlq-Resolves, flush_batch-Resolves, flush_intervention_batch-Resolves,
}
use wince_backend.Analytics.Loop.{
  Message, Turn, goes_on, Run, Batch, process, handle_event, handle_intervention, flush_full_events,
  flush_full_interventions, flush_expired_events, flush_expired_interventions, each_batch,
  is_duplicate, handle_row, after_message, take_turn, finish, stopping, stale,
}

module _ (cfg : Config) (b : Batch) (l : List ℕ) where
  full_events-Resolves : (r : Run) → Resolves l r.sink → Resolves l (flush_full_events cfg b r).sink
  unfolding flush_full_events
  full_events-Resolves r h = elim (Bool-cases (is_size_full r.batcher)) [
    | inl q ↦ rw q (flush_batch-Resolves l cfg _ r.sink h)
    | inr q ↦ rw q h
  ]

  full_interventions-Resolves :
      (r : Run) → Resolves l r.sink → Resolves l (flush_full_interventions cfg b r).sink
  unfolding flush_full_interventions
  full_interventions-Resolves r h = elim (Bool-cases (is_size_full r.interventions)) [
    | inl q ↦ rw q (flush_intervention_batch-Resolves l cfg _ r.sink h)
    | inr q ↦ rw q h
  ]

  expired_events-Resolves :
      (r : Run) → Resolves l r.sink → Resolves l (flush_expired_events cfg b r).sink
  unfolding flush_expired_events
  expired_events-Resolves r h =
      elim (Bool-cases (not (is_empty r.batcher) && is_time_expired b.now r.batcher)) [
        | inl q ↦ rw q (flush_batch-Resolves l cfg _ r.sink h)
        | inr q ↦ rw q h
      ]

  expired_interventions-Resolves :
      (r : Run) → Resolves l r.sink → Resolves l (flush_expired_interventions cfg b r).sink
  unfolding flush_expired_interventions
  expired_interventions-Resolves r h =
      elim (Bool-cases (not (is_empty r.interventions) && is_time_expired b.now r.interventions)) [
        | inl q ↦ rw q (flush_intervention_batch-Resolves l cfg _ r.sink h)
        | inr q ↦ rw q h
      ]

module _ (cfg : Config) (b : Batch) where
  -- A message is resolved, and no other with it, or it throws and nothing is resolved.
  abbrev pub Handles : Message → Run → Run → Type 0
  Handles m r r' =
      ((r'.threw ≡ false) × Resolves (r.sink.resolved ++ m.offset ∷ []) r'.sink)
      ⊎ ((r'.threw ≡ true) × Resolves r.sink.resolved r'.sink)

  pub full_events-threw : (r : Run) → (flush_full_events cfg b r).threw ≡ r.threw
  unfolding flush_full_events
  full_events-threw r = elim (Bool-cases (is_size_full r.batcher)) [
    | inl q ↦ rw q refl
    | inr q ↦ rw q refl
  ]

  pub full_interventions-threw : (r : Run) → (flush_full_interventions cfg b r).threw ≡ r.threw
  unfolding flush_full_interventions
  full_interventions-threw r = elim (Bool-cases (is_size_full r.interventions)) [
    | inl q ↦ rw q refl
    | inr q ↦ rw q refl
  ]

  handle_intervention-Handles :
      (m : Message) (row : ParsedRow) (r : Run)
      → r.threw ≡ false
      → Handles m r (handle_intervention cfg b m row r)
  handle_intervention-Handles m no_intervention r t = inl (t, refl)
  handle_intervention-Handles m range_error r t = inr (refl, refl)
  handle_intervention-Handles m (parsed_row row) r t =
      inl (full_interventions-threw _ ∙ t, full_interventions-Resolves cfg b _ _ refl)

  handle_row-Handles :
      (m : Message) (row : Option EventRow) (r : Run)
      → r.threw ≡ false
      → Handles m r (handle_row cfg b m row r)
  handle_row-Handles m none r t = inr (refl, refl)
  handle_row-Handles m (some row) r t =
      inl (full_events-threw _ ∙ t, full_events-Resolves cfg b _ _ refl)

  pub handle_event-Handles :
      (m : Message) (e : Option KafkaEnrichedEvent) (r : Run)
      → r.threw ≡ false
      → Handles m r (handle_event cfg b m e r)
  unfolding handle_event
  handle_event-Handles m none r t = inl (
    t,
    ap (λ l. l ++ m.offset ∷ []) (send_to_dlq-Resolves r.sink.resolved parse_error _ r.sink refl),
  )
  handle_event-Handles m (some e) r t = elim (Bool-cases (is_duplicate cfg b e.eid r)) [
    | inl q ↦ rw q (inl (t, refl))
    | inr q ↦ rw q (elim (Bool-cases (is_intervention_lifecycle_event e.t)) [
      | inl l ↦ rw l (handle_intervention-Handles m (parse_intervention_event_row e) r t)
      | inr l ↦ rw l (handle_row-Handles m (to_click_house_row e) r t)
    ])
  ]

  -- The list begins with what was resolved since `l`, in the order of the messages.
  abbrev pub ResolvesPrefix : List ℕ → List Message → Sink → Type 0
  ResolvesPrefix l ms s =
      (resolved : List ℕ) × (rest : List ℕ) × (resolved ++ rest ≡ map (λ m. m.offset) ms)
      × (s.resolved ≡ l ++ resolved)

  none_resolved :
      (ms : List Message) (l : List ℕ) (s : Sink) → s.resolved ≡ l → ResolvesPrefix l ms s
  none_resolved ms l s h = ([], map (λ m. m.offset) ms, refl, h ∙ sym (append-nil l))

  one_resolved :
      (m : Message) (ms : List Message) (l : List ℕ) (r : Run) (s : Sink)
      → Resolves (l ++ m.offset ∷ []) r.sink
      → ResolvesPrefix r.sink.resolved ms s
      → ResolvesPrefix l (m ∷ ms) s
  one_resolved m ms l r s h (resolved, rest, e, q) = (
    m.offset ∷ resolved,
    rest,
    ap (◌∷◌ m.offset) e,
    q ∙ ap (λ x. x ++ resolved) h ∙ append_assoc l (m.offset ∷ []) resolved,
  )

  after_message-prefix :
      (beat : Bool) (rest : Run → Run) (m : Message) (ms : List Message) (r r' : Run)
      → ((x : Run) → x.threw ≡ false → ResolvesPrefix x.sink.resolved ms (rest x).sink)
      → Handles m r r'
      → ResolvesPrefix r.sink.resolved (m ∷ ms) (after_message cfg b beat rest r').sink
  after_message-prefix beat rest m ms r r' k (inr (t, h)) =
      if-cases (λ x. ResolvesPrefix r.sink.resolved (m ∷ ms) x.sink) r'.threw r' _
        (λ _. none_resolved (m ∷ ms) r.sink.resolved r'.sink h) (λ q. ground (arith, t, q))
  after_message-prefix beat rest m ms r r' k (inl (t, h)) =
      if-cases (λ x. ResolvesPrefix r.sink.resolved (m ∷ ms) x.sink) r'.threw r' _
        (λ q. ground (arith, t, q))
        (λ _.
          if-cases (λ x. ResolvesPrefix r.sink.resolved (m ∷ ms) x.sink) beat (rest r') _
            (λ _. one_resolved m ms r.sink.resolved r' (rest r').sink h (k r' t))
            (λ _.
              one_resolved m ms r.sink.resolved r' r'.sink h
                (none_resolved ms r'.sink.resolved r'.sink refl)))

  take_turn-prefix :
      (turn : Turn) (beat : Bool) (rest : Run → Run) (m : Message) (ms : List Message) (r : Run)
      → ((x : Run) → x.threw ≡ false → ResolvesPrefix x.sink.resolved ms (rest x).sink)
      → r.threw ≡ false
      → ResolvesPrefix r.sink.resolved (m ∷ ms) (take_turn cfg b turn beat rest m r).sink
  take_turn-prefix goes_on beat rest m ms r k t =
      after_message-prefix beat rest m ms r _ k (handle_event-Handles m _ r t)
  take_turn-prefix stopping beat rest m ms r k t =
      none_resolved (m ∷ ms) r.sink.resolved r.sink refl
  take_turn-prefix stale beat rest m ms r k t = none_resolved (m ∷ ms) r.sink.resolved r.sink refl

  process-prefix :
      (turns : ℕ → Turn) (n : ℕ) (ms : List Message) (r : Run)
      → r.threw ≡ false
      → ResolvesPrefix r.sink.resolved ms (process cfg b turns n ms r).sink
  unfolding process
  process-prefix turns n [] r t = none_resolved [] r.sink.resolved r.sink refl
  process-prefix turns n (m ∷ ms) r t =
      take_turn-prefix (turns n) (b.beats n) (process cfg b turns (suc n) ms) m ms r
        (process-prefix turns (suc n) ms) t

  pub finish-Resolves :
      (l : List ℕ) (r : Run) → Resolves l r.sink → Resolves l (finish cfg b r).sink
  finish-Resolves l r h =
      if-cases (λ x. Resolves l x.sink) r.threw r _ (λ _. h)
        (λ _. expired_interventions-Resolves cfg b l _ (expired_events-Resolves cfg b l r h))

  -- However its turns go, and whatever it throws, a batch resolves the offsets of the messages at its
  -- front, in their order, each once, and no other.
  pub each_batch-prefix :
      (turns : ℕ → Turn) (ms : List Message) (s : Sink) (e : Batcher EventRow)
      (i : Batcher InterventionEventRow)
      → ResolvesPrefix s.resolved ms (each_batch cfg b turns ms (s, e, i)).sink
  unfolding each_batch
  each_batch-prefix turns ms s e i =
      let (resolved, rest, q, h) = process-prefix turns 0 ms _ refl in
      (resolved, rest, q, finish-Resolves (s.resolved ++ resolved) _ h)
