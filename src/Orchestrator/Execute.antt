-- ===== src/Orchestrator/Execute.antt =====
-- What a run of `executeRecommendation` in intervention.service.ts may send, and when.
use Prim.Native.String.{String}
use wince_backend.Prelude.{
  ℕ, suc, ◌≡◌, refl, ◌⊎◌, inl, inr, ℤ, true, false, Option, none, some, List, [], ◌∷◌, ◌++◌, arith,
  ltb,
}
use wince_backend.Redis.{Redis, lock_user, sent_user}
use wince_backend.World.{World, Delivery, Recommendation}
use wince_backend.World.Monad.{Outcome, ok, threw, continue, ◌>>=◌, pure, recover}
use wince_backend.World.Monad.Keeps.{Leads, Leads-try, Leads-if}
use wince_backend.Lock
use wince_backend.Recommendation
use wince_backend.SessionFeatures
use wince_backend.Orchestrator.{
  ExecuteResult, skipped, failed, Readers, Plan, Validated, proceed, stop, is_open, validate,
  validate_row, unless_expired, with_customer, unless_sent, deliver, run_locked, with_token,
  after_validation, execute_recommendation, intervention_of, delivery_of, email_consent,
  sms_consent,
}
use wince_backend.Orchestrator.Once.{
  AtMostOne, AtMostOne-cases, route-Leads, Keeps-AtMostOne, AtMostOne-quiet, AtMostOne-after_quiet,
  AtMostOne-then_quiet,
}
use wince_backend.Orchestrator.Quiet.{
  Sent, Sent-IsRowless, Sent-IsTimerless, quiet_rules, acquire_quiet, validate_quiet, let_go_quiet,
  start_heartbeat_quiet, discount_code_quiet,
}

module _ (R : Redis) (rd : Readers) where
  -- What was checked of a plan before the lock, in the state `w` in which the run began.
  pub record IsDue (w : World R) (id : ℕ) (p : Plan) : Type 0 where
    pub identifier : p.recommendation_id ≡ id
    pub row : w.recommendations id ≡ some p.rec
    pub open_status : is_open p.rec.status ≡ true
    pub unexpired : ltb p.rec.expires_at w.now ≡ false
    pub customer : p.rec.customer_id ≡ some p.customer_id
    -- or Redis was not reached
    pub unsent :
        (w.redis_up (suc w.redis_calls) ≡ false)
        ⊎ (R.get w.now (sent_user p.customer_id) w.store ≡ none)

  abbrev after_guards : World R → World R
  after_guards w = record w { redis_calls = suc (suc w.redis_calls) }

  unless_sent-proceed :
      (w : World R) (id : ℕ) (rec : Recommendation) (c : ℤ) (p : Plan)
      → (unless_sent R rd id rec c w).0 ≡ ok (proceed p)
      → (p.recommendation_id ≡ id)
        × (p.rec ≡ rec)
        × (p.customer_id ≡ c)
        × ((w.redis_up (suc w.redis_calls) ≡ false) ⊎ (R.get w.now (sent_user c) w.store ≡ none))
        × ((unless_sent R rd id rec c w).1 ≡ after_guards w)
  unfolding unless_sent SessionFeatures.get_session_context Lock.is_sent ◌>>=◌
  unless_sent-proceed w id rec c p h = ground arith

  abbrev pub after_checks : World R → World R
  after_checks w = record w { db_calls = suc w.db_calls; redis_calls = suc (suc w.redis_calls) }

  with_customer-proceed :
      (w : World R) (id : ℕ) (rec : Recommendation) (c : Option ℤ) (p : Plan)
      → (with_customer R rd id rec c w).0 ≡ ok (proceed p)
      → (p.recommendation_id ≡ id)
        × (p.rec ≡ rec)
        × (c ≡ some p.customer_id)
        × ((w.redis_up (suc w.redis_calls) ≡ false)
            ⊎ (R.get w.now (sent_user p.customer_id) w.store ≡ none))
        × ((with_customer R rd id rec c w).1 ≡ after_guards w)
  unfolding with_customer ◌>>=◌
  with_customer-proceed w id rec none p h = ground arith
  with_customer-proceed w id rec (some c) p h =
      let l = unless_sent-proceed w id rec c p h in ground arith

  unless_expired-proceed :
      (w : World R) (id : ℕ) (rec : Recommendation) (p : Plan)
      → (unless_expired R rd id rec w.now w).0 ≡ ok (proceed p)
      → (ltb rec.expires_at w.now ≡ false)
        × (p.recommendation_id ≡ id)
        × (p.rec ≡ rec)
        × (rec.customer_id ≡ some p.customer_id)
        × ((w.redis_up (suc w.redis_calls) ≡ false)
            ⊎ (R.get w.now (sent_user p.customer_id) w.store ≡ none))
        × ((unless_expired R rd id rec w.now w).1 ≡ after_guards w)
  unfolding unless_expired Recommendation.mark_expired ◌>>=◌
  unless_expired-proceed w id rec p h =
      ground (arith, with_customer-proceed w id rec rec.customer_id p)

  validate_row-proceed :
      (w : World R) (id : ℕ) (row : Option Recommendation) (p : Plan)
      → (validate_row R rd id row w).0 ≡ ok (proceed p)
      → (row ≡ some p.rec)
        × (p.recommendation_id ≡ id)
        × (is_open p.rec.status ≡ true)
        × (ltb p.rec.expires_at w.now ≡ false)
        × (p.rec.customer_id ≡ some p.customer_id)
        × ((w.redis_up (suc w.redis_calls) ≡ false)
            ⊎ (R.get w.now (sent_user p.customer_id) w.store ≡ none))
        × ((validate_row R rd id row w).1 ≡ after_guards w)
  unfolding validate_row ◌>>=◌
  validate_row-proceed w id none p h = ground arith
  validate_row-proceed w id (some rec) p h = ground (arith, unless_expired-proceed w id rec p)

  pub validate-IsDue :
      (w : World R) (id : ℕ) (p : Plan)
      → (validate R rd id w).0 ≡ ok (proceed p)
      → IsDue w id p × ((validate R rd id w).1 ≡ after_checks w)
  unfolding validate Recommendation.get ◌>>=◌
  validate-IsDue w id p h = ground (
    arith,
    validate_row-proceed (record w { db_calls = suc w.db_calls }) id (w.recommendations id) p,
  )

  abbrev pub delivery_for : Plan → Option String → Delivery
  delivery_for p code =
      delivery_of R rd (intervention_of R rd p code) (email_consent p.ctx) (sms_consent p.ctx)

  deliver-Leads :
      (p : Plan) (l : List Delivery)
      → Leads (Sent l) (AtMostOne (delivery_for p) l) (deliver R rd p)
  unfolding deliver
  deliver-Leads p l =
      AtMostOne-after_quiet (delivery_for p) l _ _
        (discount_code_quiet R rd (Sent-IsRowless l).quiet _ _ _)
        (λ code. AtMostOne-after_quiet (delivery_for p) l _ _ (search quiet_rules depth 9) (λ _.
          AtMostOne-then_quiet (delivery_for p) l _ _ (route-Leads R (delivery_for p) l code)
            (λ b l'. search quiet_rules depth 9)))

  run_locked-Leads :
      (p : Plan) (k : ℕ) (l : List Delivery)
      → Leads (Sent l) (AtMostOne (delivery_for p) l) (run_locked R rd p k)
  unfolding run_locked
  run_locked-Leads p k l =
      AtMostOne-after_quiet (delivery_for p) l _ _
        (start_heartbeat_quiet R rd (Sent-IsTimerless l) _ _)
        (λ _. AtMostOne-after_quiet (delivery_for p) l _ _ (search quiet_rules depth 9) (λ b.
          Leads-if b _ _
            (AtMostOne-then_quiet (delivery_for p) l _ _ (deliver-Leads p l)
              (λ _ l'. search (quiet_rules, let_go_quiet) depth 9))
            (AtMostOne-quiet (delivery_for p) l _ (search (quiet_rules, let_go_quiet) depth 9))))

  with_token-Leads :
      (p : Plan) (k : ℕ) (l : List Delivery)
      → Leads (Sent l) (AtMostOne (delivery_for p) l) (with_token R rd p (some k))
  unfolding with_token
  with_token-Leads p k l =
      Leads-try _ _ (run_locked-Leads p k l) (λ e.
        Keeps-AtMostOne (delivery_for p) l _ (λ l'. search (quiet_rules, let_go_quiet) depth 9))

  -- The one delivery of a run from `w` to `w'`.
  pub record DueDelivery (w : World R) (id : ℕ) (w' : World R) : Type 0 where
    pub plan : Plan
    pub code : Option String
    pub due : IsDue w id plan
    -- or Redis was not reached
    pub lock_free :
        (w.redis_up (suc (suc w.redis_calls)) ≡ false)
        ⊎ (R.get w.now (lock_user plan.customer_id) w.store ≡ none)
    pub sent : w'.deliveries ≡ w.deliveries ++ delivery_for plan code ∷ []

  acquire-free :
      (w : World R) (u : ℤ) (k : ℕ)
      → (Lock.acquire_user_lock R u w).0 ≡ ok (some k)
      → (w.redis_up w.redis_calls ≡ false) ⊎ (R.get w.now (lock_user u) w.store ≡ none)
  unfolding Lock.acquire_user_lock Lock.acquire_script ◌>>=◌
  acquire-free w u k h = ground arith

  acquire-free_after :
      (w w1 : World R) (u : ℤ) (k : ℕ)
      → w1 ≡ after_checks w
      → (Lock.acquire_user_lock R u w1).0 ≡ ok (some k)
      → (w.redis_up (suc (suc w.redis_calls)) ≡ false) ⊎ (R.get w.now (lock_user u) w.store ≡ none)
  acquire-free_after w w1 u k q h = acquire-free (after_checks w) u k (rw (← q) h)

  with_token-DueDelivery :
      (w : World R) (id : ℕ) (p : Plan) (t : Outcome (Option ℕ)) (w1 : World R)
      → IsDue w id p
      → ((k : ℕ)
          → t ≡ ok (some k)
          → (w.redis_up (suc (suc w.redis_calls)) ≡ false)
            ⊎ (R.get w.now (lock_user p.customer_id) w.store ≡ none))
      → Sent w.deliveries w1
      → Sent w.deliveries (continue t (with_token R rd p) w1).1
        ⊎ DueDelivery w id (continue t (with_token R rd p) w1).1
  unfolding with_token ◌>>=◌
  with_token-DueDelivery w id p (threw e) w1 due free s = inl s
  with_token-DueDelivery w id p (ok none) w1 due free s = inl s
  with_token-DueDelivery w id p (ok (some k)) w1 due free s =
      elim (AtMostOne-cases (delivery_for p) w.deliveries _
        ((with_token-Leads p k w.deliveries).at w1 s)) [
          | inl h ↦ inl h
          | inr (code, h) ↦
              inr (record { plan = p; code = code; due = due; lock_free = free k refl; sent = h })
        ]

  after_validation-DueDelivery :
      (w : World R) (id : ℕ) (v : Outcome Validated) (w1 : World R)
      → ((p : Plan) → v ≡ ok (proceed p) → IsDue w id p × (w1 ≡ after_checks w))
      → Sent w.deliveries w1
      → Sent w.deliveries (continue v (after_validation R rd) w1).1
        ⊎ DueDelivery w id (continue v (after_validation R rd) w1).1
  unfolding after_validation ◌>>=◌
  after_validation-DueDelivery w id (threw e) w1 g s = inl s
  after_validation-DueDelivery w id (ok (stop r)) w1 g s = inl s
  after_validation-DueDelivery w id (ok (proceed p)) w1 g s =
      let (due, q) = g p refl in
      let (t, w2) = Lock.acquire_user_lock R p.customer_id w1 in
      with_token-DueDelivery w id p t w2 due (λ k h. acquire-free_after w w1 p.customer_id k q h)
        ((acquire_quiet R (Sent-IsRowless w.deliveries).quiet p.customer_id).at w1 s)

  recover-state :
      (r : Outcome ExecuteResult) (w : World R)
      → (recover r (λ e. pure (skipped (failed e))) w).1 ≡ w
  unfolding ◌>>=◌
  recover-state (ok a) w = refl
  recover-state (threw e) w = refl

  -- A run sends nothing, or exactly one delivery for a recommendation that was found open,
  -- unexpired and with a customer, who was not marked as sent and whose lock was free, the last two
  -- unless Redis was not reached.
  pub execute_recommendation-DueDelivery :
      (w : World R) (id : ℕ)
      → Sent w.deliveries (execute_recommendation R rd id w).1
        ⊎ DueDelivery w id (execute_recommendation R rd id w).1
  unfolding execute_recommendation ◌>>=◌
  execute_recommendation-DueDelivery w id =
      let (v, w1) = validate R rd id w in
      rw
        (recover-state (continue v (after_validation R rd) w1).0
          (continue v (after_validation R rd) w1).1)
        (after_validation-DueDelivery w id v w1 (λ p h. validate-IsDue w id p h)
          ((validate_quiet R rd (Sent-IsRowless w.deliveries) id).at w refl))
