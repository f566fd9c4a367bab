-- ===== src/Admin/Series.antt =====
-- What the runs of the decision engine send to which one call of the client in the admin API comes.
use Prim.Native.String.{len}
use wince_backend.Prelude.{ℕ, zero, suc, ◌≤◌, ◌≡◌, refl, ◌⊎◌, inl, inr, arith, ltb, Bool-cases}
use wince_backend.Redis.{Redis}
use wince_backend.World.{World}
use wince_backend.World.Monad.{Outcome, ok, threw, ◌>>=◌, continue, recover, pure}
use wince_backend.Orchestrator.{Readers, ExecuteResult, execute_recommendation}
use wince_backend.Orchestrator.Quiet.{Sent}
use wince_backend.Orchestrator.Execute.{DueDelivery, execute_recommendation-DueDelivery}
use wince_backend.Retry.{Attempt}
use wince_backend.Retry.Attempts.{repeat, Calls}
use wince_backend.Admin.{
  Exchange, pass, executed_or_skipped, internal_error, Client, RetryPolicy, send_request, request,
  Link, unreachable, lost_reply, replies, handle_execute, call_execute,
}

-- What the documentation of cockatiel says of the policy: it calls its operation at most once more
-- than the number of its retries, one call after the other.
pub record IsPolicy (R : Redis) (policy : RetryPolicy R) : Type 0 where
  pub calls :
      (max : ℕ) (op : Client R → Attempt ExecuteResult × Client R) (c : Client R)
      → Calls (suc max) op c (policy max op c).1

module _ (R : Redis) (rd : Readers) where
  answered-state :
      (o : Outcome ExecuteResult) (w : World R)
      → let (r, w') = continue o (λ r. pure {R = R} (executed_or_skipped r)) w in
        (recover r (λ e. pure internal_error) w').1 ≡ w
  unfolding ◌>>=◌
  answered-state (ok r) w = refl
  answered-state (threw e) w = refl

  handle_execute-DueDelivery :
      (w : World R) (id : ℕ)
      → Sent w.deliveries (handle_execute R rd id w).1
        ⊎ DueDelivery R rd w id (handle_execute R rd id w).1
  unfolding handle_execute ◌>>=◌
  handle_execute-DueDelivery w id = elim (Bool-cases (ltb (len (rd.show_uuid id)) 10)) [
    | inl q ↦ rw q (inl refl)
    | inr q ↦ rw q (
        rw
          (answered-state (execute_recommendation R rd id w).0 (execute_recommendation R rd id w).1)
          (execute_recommendation-DueDelivery R rd w id))
  ]

  -- Runs of the decision engine for a recommendation one after the other, `k` of them with a delivery,
  -- which is for a recommendation that the run found due.
  pub data Series (id : ℕ) : ℕ → World R → World R → Type 0 where
    no_run : {w : World R} → Series id 0 w w
    waits : {k : ℕ} {w w1 : World R} (t : ℕ) → Series id k w w1 → Series id k w (pass R rd t w1)
    quiet :
        {k : ℕ} {w w1 : World R}
        → Series id k w w1
        → Sent w1.deliveries (handle_execute R rd id w1).1
        → Series id k w (handle_execute R rd id w1).1
    delivers :
        {k : ℕ} {w w1 : World R}
        → Series id k w w1
        → DueDelivery R rd w1 id (handle_execute R rd id w1).1
        → Series id (suc k) w (handle_execute R rd id w1).1

  -- at most `n` deliveries from `w` to `w'`
  abbrev pub AtMost : ℕ → ℕ → World R → World R → Type 0
  AtMost n id w w' = (k : ℕ) × (k ≤ n) × Series id k w w'

  AtMost-run :
      (n id : ℕ) (w w' : World R)
      → AtMost n id w w'
      → AtMost (suc n) id w (handle_execute R rd id w').1
  AtMost-run n id w w' (k, l, s) = elim (handle_execute-DueDelivery w' id) [
    | inl q ↦ (k, omega (arith, l), quiet s q)
    | inr d ↦ (suc k, omega (arith, l), delivers s d)
  ]

  AtMost-send :
      (link : Link) (n id : ℕ) (w w' : World R)
      → AtMost n id w w'
      → AtMost (suc n) id w (send_request R rd link id (handle_execute R rd id) w').1
  AtMost-send unreachable n id w w' (k, l, s) = (k, omega (arith, l), s)
  AtMost-send lost_reply n id w w' a = AtMost-run n id w w' a
  AtMost-send replies n id w w' a = AtMost-run n id w w' a

  AtMost-wait : (t n id : ℕ) (w w' : World R) → AtMost n id w w' → AtMost n id w (pass R rd t w')
  AtMost-wait t n id w w' (k, l, s) = (k, l, waits t s)

  repeat-AtMost :
      (exchanges : ℕ → Exchange) (id k : ℕ) (c : Client R)
      → AtMost k id c.world (repeat (request R rd exchanges id) k c).world
  repeat-AtMost exchanges id zero c = (0, omega arith, no_run)
  repeat-AtMost exchanges id (suc k) c =
      let c' = repeat (request R rd exchanges id) k c in
      let x = exchanges c'.requests in
      AtMost-send x.link k id c.world (pass R rd x.after c'.world)
        (AtMost-wait x.after k id c.world c'.world (repeat-AtMost exchanges id k c))

  AtMost-more : (m n id : ℕ) (w w' : World R) → m ≤ n → AtMost m id w w' → AtMost n id w w'
  AtMost-more m n id w w' l (k, h, s) = (k, omega (arith, l, h), s)

  pub call_execute-AtMost :
      (policy : RetryPolicy R) (exchanges : ℕ → Exchange) (id : ℕ) (w : World R)
      → IsPolicy R policy
      → AtMost 4 id w (call_execute R rd policy exchanges id w).1
  unfolding call_execute
  call_execute-AtMost policy exchanges id w p =
      let c : Client R = record { requests = 0; world = w } in
      let (k, l, e) = p.calls 3 (request R rd exchanges id) c in
      rw e (AtMost-more k 4 id w _ l (repeat-AtMost exchanges id k c))
