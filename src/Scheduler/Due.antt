-- ===== src/Scheduler/Due.antt =====
-- What a poll of the evaluation queue takes, leaves and loses, and what a purchase clears.
use Prim.Native.String.{String}
use wince_backend.Prelude.{
  ℕ, suc, ◌≡◌, refl, sym, ap, ◌∙◌, none, ℤ, Bool, true, not, List, [], ◌∷◌, map, filter, any, take,
  arith, filter-not-of_nil, filter_all, int_eq_refl,
}
use wince_backend.Redis.{
  Redis, Entry, in_range, is_member, eval_queue, active_risk, risk_user, user_sessions,
}
use wince_backend.World.{World}
use wince_backend.World.Monad.{ok, ◌>>=◌}
use wince_backend.Scheduler.{pop_limit, pop_due, zrem_all, clear_user_sessions}

module _ (R : Redis) where
  abbrev pub queue : World R → List Entry
  queue w = R.zset eval_queue w.store

  abbrev pub due : World R → List Entry
  due w = filter (in_range 0 w.now) (queue w)

  -- With Redis reachable, a poll returns the first hundred due sessions, and what it leaves in
  -- the queue is every entry that is not due.
  pub pop_due_lem :
      (w : World R)
      → w.redis_up w.redis_calls ≡ true
      → w.redis_up (suc w.redis_calls) ≡ true
      → ((pop_due R w).0 ≡ ok (map (λ e. e.member) (take pop_limit (due w))))
        × (queue (pop_due R w).1 ≡ filter (λ e. not (in_range 0 w.now e)) (queue w))
  unfolding pop_due ◌>>=◌
  pop_due_lem w up up' = ground (
    arith,
    R.zset-zrem_range eval_queue eval_queue 0 w.now w.store,
    filter-not-of_nil (in_range 0 w.now) (queue w),
  )

  abbrev pub is_one_of : List String → Entry → Bool
  is_one_of sids e = any (λ m. is_member m e) sids

  filter-filter :
      (sids : List String) (m : String) (l : List Entry)
      → filter (λ e. not (is_one_of sids e)) (filter (λ e. not (is_member m e)) l)
        ≡ filter (λ e. not (is_one_of (m ∷ sids) e)) l
  filter-filter sids m [] = refl
  filter-filter sids m (e ∷ l) = ground (arith, filter-filter sids m l)

  queue-zrem_all :
      (sids : List String) (s : R.Store)
      → R.zset eval_queue (zrem_all R sids s)
        ≡ filter (λ e. not (is_one_of sids e)) (R.zset eval_queue s)
  queue-zrem_all [] s = sym (filter_all (R.zset eval_queue s))
  queue-zrem_all (m ∷ sids) s =
      queue-zrem_all sids (R.zrem eval_queue m s)
      ∙ ap (filter (λ e. not (is_one_of sids e))) (R.zset-zrem eval_queue eval_queue m s)
      ∙ filter-filter sids m (R.zset eval_queue s)

  -- With Redis reachable, a purchase takes exactly the sessions of the user's index out of the
  -- evaluation queue, and leaves neither the index nor the user's risk score.
  pub clear_user_sessions_lem :
      (show_id : ℤ → String) (w : World R) (user_id : ℤ) (store_id : ℕ)
      → w.redis_up w.redis_calls ≡ true
      → w.redis_up (suc w.redis_calls) ≡ true
      → let w' = (clear_user_sessions R show_id user_id store_id w).1 in
        let sids = map (λ e. e.member) (R.zset (user_sessions user_id) w.store) in
        (queue w' ≡ filter (λ e. not (is_one_of sids e)) (queue w))
        × (R.get w.now (risk_user user_id) w'.store ≡ none)
        × (R.zset (user_sessions user_id) w'.store ≡ [])
  unfolding clear_user_sessions ◌>>=◌
  clear_user_sessions_lem show_id w user_id store_id up up' =
      let sids = map (λ (e : Entry). e.member) (R.zset (user_sessions user_id) w.store) in
      let s1 = zrem_all R sids w.store in
      let s2 = R.del (risk_user user_id) s1 in
      let s3 = R.zrem (active_risk store_id) (show_id user_id) s2 in
      (
        ground (
          arith,
          queue-zrem_all sids w.store,
          R.zset-del (risk_user user_id) eval_queue s1,
          R.zset-zrem (active_risk store_id) eval_queue (show_id user_id) s2,
          R.zset-del (user_sessions user_id) eval_queue s3,
        ),
        ground (
          arith,
          int_eq_refl user_id,
          R.get-del w.now (risk_user user_id) (risk_user user_id) s1,
          R.get-zrem w.now (active_risk store_id) (risk_user user_id) (show_id user_id) s2,
          R.get-del w.now (user_sessions user_id) (risk_user user_id) s3,
        ),
        ground (
          arith,
          int_eq_refl user_id,
          R.zset-del (user_sessions user_id) (user_sessions user_id) s3,
        ),
      )
