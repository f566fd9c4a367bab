-- ===== src/Orchestrator/Decide/Modes.antt =====
-- What `decide` does in each approval mode, and that it swallows every error.
use Prim.Native.String.{String}
use wince_backend.Prelude.{ℕ, ℤ, ◌≡◌, refl, Option, none, some, List}
use wince_backend.Types.{EnrichedEvent, ApprovalMode, manual}
use wince_backend.Redis.{Redis}
use wince_backend.World.{World, Delivery}
use wince_backend.World.Monad.Keeps.{
  Keeps, Keeps-bind, Keeps-uuid, Keeps-gets, Keeps-db, IsBlind, keeps_rules,
}
use wince_backend.World.Monad.Total.{IsTotal, IsTotal-pure, IsTotal-try}
use wince_backend.Recommendation
use wince_backend.Scheduler
use wince_backend.Orchestrator.{Readers}
use wince_backend.Orchestrator.Quiet.{
  Sent, Sent-IsQuiet, Sent-IsRowless, IsRowless, is_on_cooldown_quiet,
}
use wince_backend.Orchestrator.Decide.{
  RiskScore, Scorers, approval_mode, route_by_mode, with_score, decide_for, decide,
}

module _ (R : Redis) {P : World R → Type 0} where
  generate_quiet :
      IsRowless P
      → (f : ℕ → String) (g : Recommendation.GenerateParams)
      → Keeps P (Recommendation.generate R f g)
  unfolding Recommendation.generate
  generate_quiet q f g = Keeps-bind _ _ (Keeps-uuid q.quiet.blind) (λ id.
      Keeps-bind _ _ (Keeps-gets _) (λ t.
        Keeps-bind _ _ (Keeps-db _ q.quiet.blind (λ w h. q.rows_blind w _ h))
          (λ _. search (keeps_rules, q.quiet.blind) depth 9)))

  schedule_quiet : IsBlind P → (s : String) (n : ℕ) → Keeps P (Scheduler.schedule R s n)
  unfolding Scheduler.schedule
  schedule_quiet q s n = search (keeps_rules, q)

module _ (R : Redis) (rd : Readers) (sc : Scorers) where
  route_by_mode-manual :
      (l : List Delivery) (e : EnrichedEvent) (r : RiskScore) (m : ApprovalMode) (id : ℕ)
      → m ≡ manual
      → Keeps (Sent l) (route_by_mode R rd sc e r m id)
  unfolding route_by_mode
  route_by_mode-manual l e r m id h = rw h (search keeps_rules)

  with_score-manual :
      (l : List Delivery) (e : EnrichedEvent) (c : ℤ) (r : Option RiskScore)
      → approval_mode (rd.policy_of e.store_id) ≡ manual
      → Keeps (Sent l) (with_score R rd sc e c r)
  unfolding with_score
  with_score-manual l e c none h = search keeps_rules
  with_score-manual l e c (some r) h =
      search
        (
          keeps_rules,
          generate_quiet R (Sent-IsRowless l),
          schedule_quiet R (Sent-IsQuiet l).blind,
          route_by_mode-manual,
        )
        depth 9

  decide_for-manual :
      (l : List Delivery) (e : EnrichedEvent) (c : Option ℤ)
      → approval_mode (rd.policy_of e.store_id) ≡ manual
      → Keeps (Sent l) (decide_for R rd sc e c)
  unfolding decide_for
  decide_for-manual l e none h = search keeps_rules
  decide_for-manual l e (some c) h =
      search (keeps_rules, is_on_cooldown_quiet R (Sent-IsQuiet l), with_score-manual) depth 9

  -- Where the store's policy is manual, or could not be read, an event sends nothing by itself.
  pub decide-manual :
      (w : World R) (e : EnrichedEvent)
      → approval_mode (rd.policy_of e.store_id) ≡ manual
      → (decide R rd sc e w).1.deliveries ≡ w.deliveries
  unfolding decide
  decide-manual w e h = (decide_for-manual w.deliveries e e.customer_id h).at w refl

  decide_for-IsTotal : (e : EnrichedEvent) (c : Option ℤ) → IsTotal (decide_for R rd sc e c)
  unfolding decide_for
  decide_for-IsTotal e none = IsTotal-pure tt
  decide_for-IsTotal e (some c) = IsTotal-try _ _ (λ e. IsTotal-pure tt)

  -- `decide` never throws, whatever fails under it.
  pub decide-IsTotal : (e : EnrichedEvent) → IsTotal (decide R rd sc e)
  unfolding decide
  decide-IsTotal e = decide_for-IsTotal e e.customer_id
