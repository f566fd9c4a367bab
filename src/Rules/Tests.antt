-- ===== src/Rules/Tests.antt =====
-- A frustrated customer with a full cart in an active session.
use wince_backend.Prelude.{◌≡◌, refl, some}
use wince_backend.Types.{price_reduction, in_shop}
use wince_backend.Rules.{RuleResult, CustomerFeatures, intervention, evaluate, evaluate_in_shop}
use wince_backend.Rules.Laws.{IsPermitted, evaluate-IsPermitted}
use wince_backend.Fixture.{policy, event}

abbrev features : CustomerFeatures
features = record { abandonment_rate_7d = 800000; avg_cart_value_30d = 5000 }

abbrev result : RuleResult
result = record { channel = in_shop; type = price_reduction; value = 1500; confidence = 850000 }

recommends : evaluate event features (some policy) ≡ intervention result
unfolding evaluate evaluate_in_shop
recommends = refl

evaluate-IsPermitted_example : IsPermitted event (some policy) result
evaluate-IsPermitted_example = evaluate-IsPermitted event features (some policy) result recommends
