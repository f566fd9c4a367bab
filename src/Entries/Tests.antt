-- ===== src/Entries/Tests.antt =====
-- A session that is due, in a store that approves by hand.
use wince_backend.Prelude.{◌≡◌, refl, true, some}
use wince_backend.Types.{price_reduction, in_shop}
use wince_backend.Redis.{eval_queue}
use wince_backend.Redis.Memory.{memory}
use wince_backend.World.{World}
use wince_backend.World.Monad.{ok}
use wince_backend.Orchestrator.Decide.{Scorers}
use wince_backend.Entries.{tick, handle_trigger, handle_recalculate}
use wince_backend.Entries.Manual.{entries-manual}
use wince_backend.Fixture.{world, readers, event}

abbrev scorers : Scorers
scorers = record {
  risk_of = λ _ _ _. some (record {
    score = 850000;
    should_intervene = true;
    type = price_reduction;
    channel = in_shop;
    value = 1500;
  });
  prediction_of = λ _. 0;
}

abbrev due : World memory
due = record world { store = memory.zadd eval_queue 1000 "s1" world.store }

entries-manual_example :
    ((tick memory readers scorers (λ s. s) due).0 ≡ ok tt)
    × ((tick memory readers scorers (λ s. s) due).1.deliveries ≡ due.deliveries)
    × ((handle_trigger memory readers scorers
          (λ s. s)
          "secret"
          "secret"
          (some event)
          due).1.deliveries
        ≡ due.deliveries)
    × ((handle_recalculate memory readers scorers (λ s. s) (some "s1") due).1.deliveries
        ≡ due.deliveries)
entries-manual_example =
    entries-manual memory readers scorers (λ s. s) due "secret" "secret" (some event) (some "s1")
      (λ s. refl)
