-- ===== src/Orchestrator/Recorded.antt =====
-- What a run of `executeRecommendation` that says `executed` has sent and recorded.
use Prim.Native.String.{String}
use wince_backend.Prelude.{ℕ, ◌≡◌, refl, inl, inr, Option, none, some, List, [], ◌∷◌, ◌++◌, arith}
use wince_backend.Redis.{Redis}
use wince_backend.World.{World, Delivery, Recommendation, executed}
use wince_backend.World.Monad.{M, Outcome, ok, threw, continue, recover, pure, ◌>>=◌, ◌>>◌}
use wince_backend.World.Monad.Keeps.{Keeps}
use wince_backend.World.Monad.Returns.{
  Returns, Returns-Keeps, Returns-pure, Returns-if, Returns-bind, Returns-try, Returns-weaken,
  Keeps-nothing,
}
use wince_backend.Lock
use wince_backend.Cooldown
use wince_backend.Outbound
use wince_backend.Recommendation
use wince_backend.Orchestrator.{
  ExecuteResult, executed as result_executed, skipped, Readers, Plan, deliver, run_locked,
  with_token, Validated, proceed, stop, failed, after_validation, validate, recommendation,
  cooldown_seconds, execute_recommendation,
}
use wince_backend.Orchestrator.Quiet.{
  IsQuiet, IsTimerless, acquire_quiet, mark_delivered_quiet, set_cooldown_quiet, mark_sent_quiet,
  reserve_quiet, write_quiet, let_go_quiet, start_heartbeat_quiet, discount_code_quiet,
}
use wince_backend.Orchestrator.Execute.{
  delivery_for, IsDue, after_checks, validate-IsDue, execute_recommendation-DueDelivery,
}

module _ {R : Redis} (id : ℕ) (l : List Delivery) (row : Option Recommendation) where
  -- The deliveries are `l`, and the recommendation's row is `row`.
  abbrev pub Placed : World R → Type 0
  Placed w = (w.deliveries ≡ l) × (w.recommendations id ≡ row)

  pub Placed-IsQuiet : IsQuiet Placed
  Placed-IsQuiet = record {
    blind = record {
      store_blind = λ w s n h. h;
      redis_blind = λ w n h. h;
      db_blind = λ w n h. h;
      kafka_blind = λ w n h. h;
      messages_blind = λ w m n h. h;
      uuid_blind = λ w n h. h;
    };
    interventions_blind = λ w i h. h;
    codes_blind = λ w c h. h;
  }

  pub Placed-IsTimerless : IsTimerless Placed
  Placed-IsTimerless = record { quiet = Placed-IsQuiet; heartbeats_blind = λ w t h. h }

abbrev pub executed_row : String → Recommendation → Recommendation
executed_row i rec = record rec { status = executed; intervention_id = some i }

module _ (R : Redis) (rd : Readers) (p : Plan) (l : List Delivery) where
  abbrev pub plan_intervention : String
  plan_intervention = rd.intervention_id (recommendation p.recommendation_id) p.rec.distinct_id

  -- One delivery of the plan after `l`, and the plan's row executed.
  pub record IsCompleted (w : World R) : Type 0 where
    pub code : Option String
    pub placed :
        Placed p.recommendation_id
          (l ++ delivery_for R rd p code ∷ [])
          (some (executed_row plan_intervention p.rec))
          w

  -- What a result promises.
  abbrev pub Promises : ExecuteResult → World R → Type 0
  Promises (result_executed i) w = (i ≡ plan_intervention) × IsCompleted w
  Promises (skipped r) w = Unit {0}

module _ (R : Redis) (rd : Readers) (l : List Delivery) (rec : Recommendation) where
  route-Placed :
      (id : ℕ) (row : Option Recommendation) (d : Delivery)
      → Returns (Placed id l row) (λ _. Placed id (l ++ d ∷ []) row) (Outbound.route R d)
  unfolding Outbound.route ◌>>=◌
  route-Placed id row d = record { at = λ w p _ _. (rw p.0 refl, p.1) }

  mark_executed-Placed :
      (id : ℕ) (i : String)
      → Returns
          (Placed id l (some rec))
          (λ _. Placed id l (some (executed_row i rec)))
          (Recommendation.mark_executed R id i)
  unfolding Recommendation.mark_executed ◌>>=◌
  mark_executed-Placed id i = record { at = λ w p _ h. ground arith }

  -- the writes after the request
  settle-Placed :
      (p : Plan) (i : String)
      → Returns
          (Placed p.recommendation_id l (some rec))
          (λ _. Placed p.recommendation_id l (some (executed_row i rec)))
          (do
            Outbound.mark_delivered R i
            Cooldown.set_cooldown R p.rec.store_id p.customer_id (cooldown_seconds p.pol)
            Lock.mark_sent R p.customer_id
            Recommendation.mark_executed R p.recommendation_id i)
  settle-Placed p i =
      Returns-bind _ _ (Returns-Keeps (mark_delivered_quiet R (Placed-IsQuiet _ l _) i)) (λ _.
        Returns-bind _ _ (Returns-Keeps (set_cooldown_quiet R (Placed-IsQuiet _ l _) _ _ _)) (λ _.
          Returns-bind _ _ (Returns-Keeps (mark_sent_quiet R (Placed-IsQuiet _ l _) _))
            (λ _. mark_executed-Placed p.recommendation_id i)))

module _ (R : Redis) (rd : Readers) (p : Plan) (l : List Delivery) where
  Keeps-IsCompleted :
      {A : Type 0} (m : M R A)
      → ((l' : List Delivery) (row : Option Recommendation)
          → Keeps (Placed p.recommendation_id l' row) m)
      → Keeps (IsCompleted R rd p l) m
  Keeps-IsCompleted m k = record {
    at = λ w c. record { code = c.code; placed = (k _ _).at w c.placed };
  }

  deliver-IsCompleted :
      Returns
        (Placed p.recommendation_id l (some p.rec))
        (λ _. IsCompleted R rd p l)
        (deliver R rd p)
  unfolding deliver
  deliver-IsCompleted =
      Returns-bind _ _ (Returns-Keeps (discount_code_quiet R rd (Placed-IsQuiet _ l _) _ _ _))
        (λ code. Returns-bind _ _ (Returns-Keeps (write_quiet R (Placed-IsQuiet _ l _) _)) (λ _.
          Returns-bind _ _
            (route-Placed R rd l p.rec p.recommendation_id _ (delivery_for R rd p code))
            (λ _.
              Returns-weaken _
                (settle-Placed R rd (l ++ delivery_for R rd p code ∷ []) p.rec p
                  (plan_intervention R rd p l))
                (λ _ w h. record { code = code; placed = h }))))

  run_locked-Promises :
      (k : ℕ)
      → Returns
          (Placed p.recommendation_id l (some p.rec))
          (Promises R rd p l)
          (run_locked R rd p k)
  unfolding run_locked
  run_locked-Promises k =
      Returns-bind _ _ (Returns-Keeps (start_heartbeat_quiet R rd (Placed-IsTimerless _ l _) _ _))
        (λ _. Returns-bind _ _ (Returns-Keeps (reserve_quiet R (Placed-IsQuiet _ l _) _ _ _)) (λ b.
          Returns-if b _ _
            (Returns-bind _ _ deliver-IsCompleted (λ _.
              Returns-bind _ _
                (Returns-Keeps (
                  Keeps-IsCompleted _
                    (λ l' row. let_go_quiet R rd (Placed-IsTimerless _ l' row) _ _ k)))
                (λ _. Returns-pure _ (λ w c. (refl, c)))))
            (Returns-bind _ _ (Returns-Keeps (let_go_quiet R rd (Placed-IsTimerless _ l _) _ _ k))
              (λ _. Returns-pure _ (λ w _. tt)))))

  with_token-Promises :
      (t : Option ℕ)
      → Returns
          (Placed p.recommendation_id l (some p.rec))
          (Promises R rd p l)
          (with_token R rd p t)
  unfolding with_token
  with_token-Promises none = Returns-pure _ (λ w _. tt)
  with_token-Promises (some k) =
      Returns-try _ _ (run_locked-Promises k)
        (λ e. Returns-bind _ _ (Returns-Keeps (Keeps-nothing _)) (λ _. Returns-pure _ (λ w _. tt)))

module _ (R : Redis) (rd : Readers) where
  -- A run from `w` to `w'` that says `executed i`.
  pub record IsRecorded (w : World R) (id : ℕ) (i : String) (w' : World R) : Type 0 where
    pub plan : Plan
    pub due : IsDue R rd w id plan
    pub names : i ≡ plan_intervention R rd plan w.deliveries
    pub completed : IsCompleted R rd plan w.deliveries w'

  after_token-Promises :
      (p : Plan) (l : List Delivery) (w : World R) (i : String)
      → Placed p.recommendation_id l (some p.rec) w
      → (after_validation R rd (proceed p) w).0 ≡ ok (result_executed i)
      → Promises R rd p l (result_executed i) (after_validation R rd (proceed p) w).1
  unfolding after_validation
  after_token-Promises p l w i placed =
      (Returns-bind _ _ (Returns-Keeps (acquire_quiet R (Placed-IsQuiet _ l _) _))
          (with_token-Promises R rd p l)).at
        w placed (result_executed i)

  after_checks-Placed :
      (w w1 : World R) (id : ℕ) (p : Plan)
      → IsDue R rd w id p
      → w1 ≡ after_checks R rd w
      → Placed p.recommendation_id w.deliveries (some p.rec) w1
  after_checks-Placed w w1 id p due q = rw q (refl, rw due.identifier due.row)

  after_validation-IsRecorded :
      (w : World R) (id : ℕ) (i : String) (v : Outcome Validated) (w1 : World R)
      → ((p : Plan) → v ≡ ok (proceed p) → IsDue R rd w id p × (w1 ≡ after_checks R rd w))
      → (continue v (after_validation R rd) w1).0 ≡ ok (result_executed i)
      → IsRecorded w id i (continue v (after_validation R rd) w1).1
  unfolding after_validation ◌>>=◌
  after_validation-IsRecorded w id i (threw e) w1 g h = ground arith
  after_validation-IsRecorded w id i (ok (stop r)) w1 g h = ground arith
  after_validation-IsRecorded w id i (ok (proceed p)) w1 g h =
      let (due, q) = g p refl in
      let (names, completed) =
        after_token-Promises p w.deliveries w1 i (after_checks-Placed w w1 id p due q) h in
      record { plan = p; due = due; names = names; completed = completed }

  recover-executed :
      (r : Outcome ExecuteResult) (w : World R) (i : String)
      → (recover r (λ e. pure (skipped (failed e))) w).0 ≡ ok (result_executed i)
      → (r ≡ ok (result_executed i)) × ((recover r (λ e. pure (skipped (failed e))) w).1 ≡ w)
  unfolding ◌>>=◌
  recover-executed (ok a) w i h = (h, refl)
  recover-executed (threw e) w i h = ground arith

  -- A run that says `executed i` has sent exactly one delivery of a plan that was due, and left the
  -- plan's row executed by `i`, the identifier of the recommendation and its visitor.
  pub execute_recommendation-IsRecorded :
      (w : World R) (id : ℕ) (i : String)
      → (execute_recommendation R rd id w).0 ≡ ok (result_executed i)
      → IsRecorded w id i (execute_recommendation R rd id w).1
  unfolding execute_recommendation ◌>>=◌
  execute_recommendation-IsRecorded w id i h =
      let (v, w1) = validate R rd id w in
      let (e, q) =
        recover-executed (continue v (after_validation R rd) w1).0
          (continue v (after_validation R rd) w1).1 i h in
      rw q (after_validation-IsRecorded w id i v w1 (λ p g. validate-IsDue R rd w id p g) e)

  -- After a run that says `executed i`, a run from any state with the same row of the recommendation
  -- sends nothing.
  pub execute_recommendation-once :
      (w : World R) (id : ℕ) (i : String) (v : World R)
      → (execute_recommendation R rd id w).0 ≡ ok (result_executed i)
      → v.recommendations id ≡ (execute_recommendation R rd id w).1.recommendations id
      → (execute_recommendation R rd id v).1.deliveries ≡ v.deliveries
  execute_recommendation-once w id i v h same =
      let c = execute_recommendation-IsRecorded w id i h in
      elim (execute_recommendation-DueDelivery R rd v id) [
        | inl s ↦ s
        | inr d ↦
            ground (arith, c.completed.placed.1, c.due.identifier, d.due.row, d.due.open_status)
      ]
