-- ===== src/Consumer/Tests.antt =====
-- A batch of two messages, one of them not JSON.
use Prim.Native.String.{String}
use text.Mathlib.Text.{◌==◌ as str_eq}
use wince_backend.Prelude.{
  ℕ, ℤ, ◌≡◌, refl, ◌⊎◌, filter, ◌++◌, true, false, ◌==◌, Option, none, some, List, [], ◌∷◌, map,
  if◌then◌else◌,
}
use wince_backend.Types.{price_reduction, in_shop}
use wince_backend.Redis.Memory.{memory}
use wince_backend.World.Monad.{Error, ok, threw, type_error, kafka_error, ◌>>=◌}
use wince_backend.Orchestrator.Decide.{RiskScore, Scorers, decide}
use wince_backend.Consumer.{
  Message, Parsed, rank, insert_by_rank, process, handle_parsed, handle_customer, handle_typed,
  parse_message, sort_by_rank, with_retry, retry_delays, resolve_batch, each_batch, Incoming,
  Callbacks,
}
use wince_backend.Consumer.Order.{has_priority, is_unranked, sort_by_rank_lem}
use wince_backend.Consumer.Faults.{faults}
use wince_backend.Consumer.Batch.{
  IsResolved, ordered, each_batch-IsResolved, each_batch-all, with_retry-decide,
}
use wince_backend.Fixture.{readers, world, event}

abbrev high : RiskScore
high = record {
  score = 850000;
  should_intervene = true;
  type = price_reduction;
  channel = in_shop;
  value = 1500;
}

abbrev scorers : Scorers
scorers = record { risk_of = λ _ _ _. some high; prediction_of = λ _. 0 }

abbrev parse : String → Option Incoming
parse raw =
    if str_eq raw "event"
    then some (record { event = event; has_type = true })
    else if str_eq raw "untyped"
    then some (record { event = event; has_type = false })
    else none

abbrev show_id : ℤ → String
show_id _ = "42"

abbrev messages : List Message
messages =
    record { offset = 10; key = some "k"; value = some "garbage" }
    ∷ record { offset = 11; key = some "k"; value = some "event" }
    ∷ []

abbrev parsed : List Parsed
parsed = map (parse_message parse) messages

-- the consumer is stopped after the first message
abbrev one_turn : Callbacks
one_turn = record { running = λ n. n == 0; beats = λ _. true; commits = true }

abbrev all_turns : Callbacks
all_turns = record { running = λ _. true; beats = λ _. true; commits = false }

each_batch-IsResolved_example :
    ((faults memory readers scorers show_id one_turn 0
          (ordered memory readers scorers show_id parse messages)
        ≡ false)
      × ((r : List ℕ) × ((resolve_batch memory readers scorers show_id parse one_turn messages
              world).0
            ≡ ok r)
          × IsResolved memory readers scorers show_id parse one_turn messages r
          × ((each_batch memory readers scorers show_id parse one_turn messages world).0 ≡ ok r)))
    ⊎ ((faults memory readers scorers show_id one_turn 0
            (ordered memory readers scorers show_id parse messages)
          ≡ true)
        × ((e : Error) × ((resolve_batch memory readers scorers show_id parse one_turn messages
                world).0
              ≡ threw e))
        × ((e : Error) × ((each_batch memory readers scorers show_id parse one_turn messages
                world).0
              ≡ threw e)))
each_batch-IsResolved_example =
    each_batch-IsResolved memory readers scorers show_id parse one_turn messages world

no_faults :
    faults memory readers scorers show_id all_turns 0
      (ordered memory readers scorers show_id parse messages)
    ≡ false
unfolding faults sort_by_rank insert_by_rank rank
no_faults = refl

each_batch-all_example :
    ((resolve_batch memory readers scorers show_id parse all_turns messages world).0
      ≡ ok (10 ∷ 11 ∷ []))
    × ((each_batch memory readers scorers show_id parse all_turns messages world).0
        ≡ threw kafka_error)
each_batch-all_example =
    each_batch-all memory readers scorers show_id parse all_turns messages world (λ _. refl)
      no_faults

-- A message of a customer whose type is no text throws before anything of its batch is resolved.
untyped :
    (each_batch memory readers scorers show_id parse all_turns
      (record { offset = 12; key = none; value = some "untyped" } ∷ [])
      world).0
    ≡ threw type_error
unfolding each_batch ◌>>=◌ resolve_batch process sort_by_rank insert_by_rank handle_parsed
    handle_customer handle_typed
untyped = refl

with_retry-decide_example :
    with_retry retry_delays (decide memory readers scorers event) world
    ≡ decide memory readers scorers event world
with_retry-decide_example =
    with_retry-decide memory readers scorers show_id retry_delays event world

sort_by_rank_lem_example :
    sort_by_rank parsed
    ≡ filter (has_priority "critical") parsed
      ++ (filter (has_priority "high") parsed
          ++ (filter (has_priority "normal") parsed ++ filter is_unranked parsed))
sort_by_rank_lem_example = sort_by_rank_lem parsed
