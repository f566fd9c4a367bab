-- ===== src/Orchestrator/Manual/Timers.antt =====
-- The renewals that `manualDecide` leaves running.
use wince_backend.Prelude.{ℕ, ℤ, ◌≡◌, refl, not, Option, none, some, List, ◌∷◌, filter}
use wince_backend.Redis.{Redis}
use wince_backend.World.{World, Heartbeat}
use wince_backend.World.Monad.{ok, pure, ◌>>=◌, ◌>>◌}
use wince_backend.World.Monad.Keeps.{Keeps-gets}
use Prim.Native.String.{String}
use wince_backend.Lock
use wince_backend.Cooldown
use wince_backend.Outbound
use wince_backend.World.Monad.Returns.{
  Returns, Returns-Keeps, Returns-pure, Returns-throw, Returns-if, Returns-bind, Returns-try,
  Keeps-nothing,
}
use wince_backend.Orchestrator.{
  Readers, SkipReason, budget_exhausted, same_timer, start_heartbeat, clear_heartbeat, let_go,
}
use wince_backend.Orchestrator.Quiet.{
  IsQuiet, acquire_quiet, release_quiet, reserve_quiet, write_quiet, mark_delivered_quiet,
  set_cooldown_quiet, mark_sent_quiet, route_quiet, discount_code_quiet, is_on_cooldown_quiet,
  is_sent_quiet,
}
use wince_backend.Orchestrator.Manual.{
  ManualParams, ManualResult, sent, refused, errored, guard_order, order_locked, with_order_token,
  after_guard, manual_decide,
}

module _ {R : Redis} (hs : List Heartbeat) where
  abbrev pub Timed : World R → Type 0
  Timed w = w.heartbeats ≡ hs

  Timed-IsQuiet : IsQuiet Timed
  Timed-IsQuiet = record {
    blind = record {
      store_blind = λ w s n h. h;
      redis_blind = λ w n h. h;
      db_blind = λ w n h. h;
      kafka_blind = λ w n h. h;
      messages_blind = λ w m n h. h;
      uuid_blind = λ w n h. h;
    };
    interventions_blind = λ w i h. h;
    codes_blind = λ w c h. h;
  }

abbrev pub timer : ℤ → ℕ → Heartbeat
timer c token = record { user = c; token = token }

-- The timers at the end of a manual order of a customer that began with `hs`, by its result.
module _ {R : Redis} (c : ℤ) (hs : List Heartbeat) where
  abbrev pub LeavesRefused : SkipReason → World R → Type 0
  LeavesRefused budget_exhausted w = (token : ℕ) × (w.heartbeats ≡ timer c token ∷ hs)
  LeavesRefused _ w = w.heartbeats ≡ hs

  abbrev LeavesGuard : Option SkipReason → World R → Type 0
  LeavesGuard none w = w.heartbeats ≡ hs
  LeavesGuard (some r) w = LeavesRefused r w

  abbrev pub LeavesTimers : ManualResult → World R → Type 0
  LeavesTimers (sent i) w =
      (token : ℕ) × (w.heartbeats ≡ filter (λ h. not (same_timer c token h)) (timer c token ∷ hs))
  LeavesTimers (refused r) w = LeavesRefused r w
  LeavesTimers (errored e) w = Unit {0}

module _ (R : Redis) (rd : Readers) (hs : List Heartbeat) where
  start-Timed :
      (c : ℤ) (k : ℕ) → Returns (Timed hs) (λ _. Timed (timer c k ∷ hs)) (start_heartbeat R rd c k)
  unfolding start_heartbeat ◌>>=◌
  start-Timed c k = record { at = λ w p _ _. rw p refl }

  clear-Timed :
      (c : ℤ) (k : ℕ)
      → Returns
          (Timed hs)
          (λ _. Timed (filter (λ h. not (same_timer c k h)) hs))
          (clear_heartbeat R rd c k)
  unfolding clear_heartbeat ◌>>=◌
  clear-Timed c k = record { at = λ w p _ _. rw p refl }

  let_go-Timed :
      (c : ℤ) (k : ℕ)
      → Returns
          (Timed hs)
          (λ _. Timed (filter (λ h. not (same_timer c k h)) hs))
          (let_go R rd c c k)
  unfolding let_go
  let_go-Timed c k =
      Returns-bind _ _ (clear-Timed c k)
        (λ _. Returns-Keeps (release_quiet R (Timed-IsQuiet _) c k))

module _ (R : Redis) (rd : Readers) (hs : List Heartbeat) where
  -- the writes after the request
  settle-Timed :
      (p : ManualParams) (k : ℕ) (i : String) (ttl : ℕ)
      → Returns (Timed (timer p.customer_id k ∷ hs)) (LeavesTimers p.customer_id hs) (do
        Outbound.mark_delivered R i
        Cooldown.set_cooldown R p.store_id p.customer_id ttl
        Lock.mark_sent R p.customer_id
        let_go R rd p.customer_id p.customer_id k
        pure (sent i))
  settle-Timed p k i ttl =
      let q = Timed-IsQuiet (timer p.customer_id k ∷ hs) in
      Returns-bind _ _ (Returns-Keeps (mark_delivered_quiet R q i)) (λ _.
        Returns-bind _ _ (Returns-Keeps (set_cooldown_quiet R q _ _ _)) (λ _.
          Returns-bind _ _ (Returns-Keeps (mark_sent_quiet R q _)) (λ _.
            Returns-bind _ _ (let_go-Timed R rd (timer p.customer_id k ∷ hs) p.customer_id k)
              (λ _. Returns-pure _ (λ w h. (k, h))))))

  guard_order-Timed :
      (p : ManualParams) → Returns (Timed hs) (LeavesGuard p.customer_id hs) (guard_order R rd p)
  unfolding guard_order
  guard_order-Timed p = Returns-if p.override_cooldown _ _ (Returns-pure _ (λ w h. h)) (
      Returns-bind _ _ (Returns-Keeps (is_on_cooldown_quiet R (Timed-IsQuiet hs) _ _)) (λ b.
        Returns-if b _ _ (Returns-pure _ (λ w h. h)) (
          Returns-bind _ _ (Returns-Keeps (is_sent_quiet R (Timed-IsQuiet hs) _))
            (λ s. Returns-if s _ _ (Returns-pure _ (λ w h. h)) (Returns-pure _ (λ w h. h))))))

  order_locked-Timed :
      (p : ManualParams) (k : ℕ)
      → Returns (Timed hs) (LeavesTimers p.customer_id hs) (order_locked R rd p k)
  unfolding order_locked
  order_locked-Timed p k =
      let q = Timed-IsQuiet (timer p.customer_id k ∷ hs) in
      Returns-bind _ _ (start-Timed R rd hs p.customer_id k) (λ _.
        Returns-bind _ _ (Returns-Keeps (reserve_quiet R q _ _ _)) (λ b.
          Returns-if b _ _
            (Returns-bind _ _ (Returns-Keeps (Keeps-gets _)) (λ now.
              Returns-bind _ _ (Returns-Keeps (discount_code_quiet R rd q _ _ _)) (λ code.
                Returns-bind _ _ (Returns-Keeps (write_quiet R q _)) (λ _.
                  Returns-bind _ _ (Returns-Keeps (route_quiet R (λ w l h. h) _))
                    (λ _. settle-Timed p k _ _)))))
            (Returns-pure _ (λ w h. (k, h)))))

  with_order_token-Timed :
      (p : ManualParams) (t : Option ℕ)
      → Returns (Timed hs) (LeavesTimers p.customer_id hs) (with_order_token R rd p t)
  unfolding with_order_token
  with_order_token-Timed p none = Returns-pure _ (λ w h. h)
  with_order_token-Timed p (some k) =
      Returns-try _ _ (order_locked-Timed p k)
        (λ e. Returns-bind _ _ (Returns-Keeps (Keeps-nothing _)) (λ _. Returns-throw e))

  after_guard-Timed :
      (p : ManualParams) (r : Option SkipReason)
      → Returns
          (LeavesGuard p.customer_id hs r)
          (LeavesTimers p.customer_id hs)
          (after_guard R rd p r)
  unfolding after_guard
  after_guard-Timed p (some r) = Returns-pure _ (λ w h. h)
  after_guard-Timed p none =
      Returns-bind _ _ (Returns-Keeps (acquire_quiet R (Timed-IsQuiet hs) _))
        (with_order_token-Timed p)

  manual_decide-Timed :
      (p : ManualParams) → Returns (Timed hs) (LeavesTimers p.customer_id hs) (manual_decide R rd p)
  unfolding manual_decide
  manual_decide-Timed p =
      Returns-try _ _ (Returns-bind _ _ (guard_order-Timed p) (after_guard-Timed p))
        (λ e. Returns-pure _ (λ w _. tt))

module _ (R : Redis) (rd : Readers) where
  -- The timers that an order which returns `r` leaves: its own runs on where the budget refused it,
  -- all are as they were where anything else refused it, and where it was sent its own is stopped.
  pub manual_decide-LeavesTimers :
      (w : World R) (p : ManualParams) (r : ManualResult)
      → (manual_decide R rd p w).0 ≡ ok r
      → LeavesTimers p.customer_id w.heartbeats r (manual_decide R rd p w).1
  manual_decide-LeavesTimers w p r h = (manual_decide-Timed R rd w.heartbeats p).at w refl r h
