-- ===== src/StaleScan/Tests.antt =====
-- A session of a customer that fell silent, in a store that approves by hand.
use wince_backend.Prelude.{◌≡◌, refl, List, true, some}
use wince_backend.Types.{price_reduction, in_shop}
use wince_backend.Redis.{active_sessions}
use wince_backend.Redis.Memory.{memory}
use wince_backend.World.{World}
use wince_backend.World.Monad.{M, ok}
use wince_backend.SessionFeatures.{SessionContext}
use wince_backend.Orchestrator.Decide.{Scorers}
use wince_backend.StaleScan.{scan}
use wince_backend.StaleScan.Manual.{scan-manual}
use wince_backend.Fixture.{world, readers}

abbrev scorers : Scorers
scorers = record {
  risk_of = λ _ _ _. some (record {
    score = 850000;
    should_intervene = true;
    type = price_reduction;
    channel = in_shop;
    value = 1500;
  });
  prediction_of = λ _. 0;
}

abbrev silent : World memory
silent = record world { now = 700000; store = memory.zadd active_sessions 1000 "s1" world.store }

abbrev no_prefetch : List SessionContext → M memory Unit
no_prefetch cs w = (ok tt, w)

scan-manual_example :
    ((scan memory readers scorers (λ s. s) no_prefetch silent).0 ≡ ok tt)
    × ((scan memory readers scorers (λ s. s) no_prefetch silent).1.deliveries ≡ silent.deliveries)
scan-manual_example =
    scan-manual memory readers scorers (λ s. s) no_prefetch silent (λ w cs. refl) (λ s. refl)
