-- ===== src/Outbound.antt =====
-- What leaves the decision engine for one intervention: outbound.service.ts, which posts to the
-- gateway or the notification service, intervention/intervention.writer.ts, which records it, and
-- discount.service.ts, all under apps/decision-engine/src.
use Prim.Native.String.{String}
use text.Mathlib.Text.{◌==◌ as str_eq}
use wince_backend.Prelude.{ℕ, Bool, true, Option, none, some, [], ◌∷◌, ◌++◌, map, if◌then◌else◌}
use wince_backend.Redis.{Redis}
use wince_backend.World.{Intervention, Delivery, intervention_logged, dead_letter}
use wince_backend.World.Monad.{M, ◌>>=◌, ◌>>◌, pure, try_catch, db_call, send, modify, random_uuid}

module _ (R : Redis) where
  -- One HTTP request. Whatever it meets is logged and swallowed, so the request itself is all
  -- that remains of it.
  unfoldable pub route : Delivery → M R Unit
  route d = modify (λ w. record w { deliveries = w.deliveries ++ d ∷ [] })

  -- INSERT with delivered = false, then the log topic, or the dead letters.
  unfoldable pub write : Intervention → M R Unit
  write i = do
    try_catch
        (db_call (λ w. (
          tt,
          record w {
            interventions = w.interventions ++ (record i { delivered = Bool.false }) ∷ [];
          },
        )))
        (pure tt)
    try_catch (send (intervention_logged i.intervention_id))
        (try_catch (send (dead_letter i.intervention_id)) (pure tt))

  abbrev pub deliver_row : String → Intervention → Intervention
  deliver_row id i = if str_eq i.intervention_id id then record i { delivered = true } else i

  unfoldable pub mark_delivered : String → M R Unit
  mark_delivered id =
      try_catch
        (db_call (λ w. (tt, record w { interventions = map (deliver_row id) w.interventions })))
        (pure tt)

  -- The code that the n-th draw of random bytes gives for a store, kept in `discount_codes`.
  unfoldable pub generate_code : (ℕ → ℕ → String) → ℕ → M R (Option String)
  generate_code code_of store_id = do
    n ← random_uuid
    try_catch
        (do
          db_call
              (λ w. (tt, record w { discount_codes = w.discount_codes ++ code_of store_id n ∷ [] }))
          pure (some (code_of store_id n)))
        (pure none)
