-- ===== src/Orchestrator/Decide/Tests.antt =====
-- An event of a store whose approval mode is manual.
use wince_backend.Prelude.{◌≡◌, refl, true, some}
use wince_backend.Types.{price_reduction, in_shop}
use wince_backend.Redis.Memory.{memory}
use wince_backend.Orchestrator.Decide.{RiskScore, Scorers, decide}
use wince_backend.Orchestrator.Decide.Modes.{decide-manual}
use wince_backend.Fixture.{readers, world, event}

abbrev high : RiskScore
high = record {
  score = 850000;
  should_intervene = true;
  type = price_reduction;
  channel = in_shop;
  value = 1500;
}

abbrev scorers : Scorers
scorers = record { risk_of = λ _ _ _. some high; prediction_of = λ _. 0 }

decide-manual_example : (decide memory readers scorers event world).1.deliveries ≡ world.deliveries
decide-manual_example = decide-manual memory readers scorers world event refl
