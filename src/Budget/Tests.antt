-- ===== src/Budget/Tests.antt =====
-- Two reservations of one day, of which the second goes past the maximum.
use wince_backend.Prelude.{◌≡◌, ◌≤◌, refl, arith, List, [], ◌∷◌}
use wince_backend.Redis.{budget, number_or_zero}
use wince_backend.Redis.Memory.{memory, empty}
use wince_backend.Budget.Daily.{Request, InOrder, reserve_all, reserve_all_capped}

abbrev requests : List Request
requests = record { at = 86400010; amount = 700 } ∷ record { at = 86400020; amount = 400 } ∷ []

in_order : InOrder 86400000 172800000 requests
in_order = (omega arith, omega arith, (omega arith, omega arith, tt))

reserve_all_capped_example :
    let r = reserve_all memory (budget 1 1) 1000 requests empty in
    (r.0 ≤ 1000) × (number_or_zero (memory.get 86400030 (budget 1 1) r.1) ≡ r.0)
reserve_all_capped_example =
    reserve_all_capped memory 1 1 1000 requests empty in_order refl 86400030 (omega arith)
      (omega arith)
