-- ===== src/Admin/Approval.antt =====
-- Approval and rejection in the admin API, with the run of the decision engine that an approval
-- starts.
use wince_backend.Prelude.{
  ℕ, suc, ◌≡◌, refl, ◌∙◌, ◌⊎◌, inl, inr, arith, Bool, true, false, Option, none, some, ltb, ==_refl,
  Bool-cases,
}
use wince_backend.Redis.{Redis}
use wince_backend.World.{World, Recommendation, rejected}
use wince_backend.World.Monad.{Outcome, ok, threw, ◌>>=◌, continue}
use wince_backend.Expiry.{is_pending}
use wince_backend.Recommendation.{update_option, update_row}
use wince_backend.Orchestrator.{Readers, ExecuteResult, is_open, execute_recommendation}
use wince_backend.Orchestrator.Quiet.{Sent}
use wince_backend.Orchestrator.Execute.{execute_recommendation-DueDelivery}
use wince_backend.Admin.Series.{IsPolicy, AtMost, call_execute-AtMost}
use wince_backend.Admin.{
  done, RetryPolicy, Exchange, call_execute, log, get, reject_row, after_execute, approve_row,
  approve, reject_found, reject,
}

abbrev open_row : Option Recommendation → Bool
open_row none = false
open_row (some rec) = is_open rec.status

abbrev reject_it : Recommendation → Recommendation
reject_it rec = record rec { status = rejected }

rejected-closed :
    (R : Redis) (o : Option Recommendation) → open_row (update_option R reject_it o) ≡ false
rejected-closed R none = refl
rejected-closed R (some rec) = refl

module _ (R : Redis) (rd : Readers) where
  update-closed :
      (w : World R) (id : ℕ) → open_row ((update_row R id reject_it w).recommendations id) ≡ false
  update-closed w id = rw (==_refl id) (rejected-closed R (w.recommendations id))

  reject_found-closes :
      (w : World R) (admin id : ℕ) (o : Option Recommendation)
      → (reject_found R rd admin id o w).0 ≡ ok done
      → let w' = (reject_found R rd admin id o w).1 in
        (w'.deliveries ≡ w.deliveries) × (open_row (w'.recommendations id) ≡ false)
  unfolding reject_found reject_row log ◌>>=◌
  reject_found-closes w admin id none h = ground arith
  reject_found-closes w admin id (some rec) h =
      ground (arith, update-closed (record w { db_calls = suc w.db_calls }) id, update-closed w id)

  reject-closes :
      (w : World R) (admin id : ℕ)
      → (reject R rd admin id w).0 ≡ ok done
      → let w' = (reject R rd admin id w).1 in
        (w'.deliveries ≡ w.deliveries) × (open_row (w'.recommendations id) ≡ false)
  unfolding reject get ◌>>=◌
  reject-closes w admin id h = ground (
    arith,
    reject_found-closes (record w { db_calls = suc w.db_calls }) admin id (w.recommendations id),
  )

  -- Once a rejection is answered, a run of the decision engine for the recommendation sends nothing.
  pub reject-stops :
      (w : World R) (admin id : ℕ)
      → (reject R rd admin id w).0 ≡ ok done
      → (execute_recommendation R rd id (reject R rd admin id w).1).1.deliveries ≡ w.deliveries
  reject-stops w admin id h =
      let (same, shut) = reject-closes w admin id h in
      elim (execute_recommendation-DueDelivery R rd (reject R rd admin id w).1 id) [
        | inl s ↦ s ∙ same
        | inr d ↦ ground (arith, d.due.row, d.due.open_status, shut)
      ]

  after_execute-deliveries :
      (o : Option ExecuteResult) (admin id : ℕ) (w : World R)
      → (after_execute R rd admin id o w).1.deliveries ≡ w.deliveries
  unfolding after_execute log ◌>>=◌
  after_execute-deliveries none admin id w = ground arith
  after_execute-deliveries (some r) admin id w = ground arith

  after_call-deliveries :
      (admin id : ℕ) (o : Outcome (Option ExecuteResult)) (w : World R)
      → (continue o (λ r. after_execute R rd admin id r) w).1.deliveries ≡ w.deliveries
  unfolding ◌>>=◌
  after_call-deliveries admin id (threw e) w = refl
  after_call-deliveries admin id (ok r) w = after_execute-deliveries r admin id w

  abbrev after_get : World R → World R
  after_get w = record w { db_calls = suc w.db_calls }

  -- What an approval in `w` that comes to `w'` has sent: the at most four deliveries of runs of the
  -- decision engine one after the other, for a recommendation that the route found pending and
  -- unexpired.
  pub record ApprovedDeliveries (w : World R) (id : ℕ) (w' : World R) : Type 0 where
    pub rec : Recommendation
    pub row : w.recommendations id ≡ some rec
    pub status : is_pending rec.status ≡ true
    pub unexpired : ltb rec.expires_at w.now ≡ false
    pub last : World R
    pub runs : AtMost R rd 4 id (after_get w) last
    pub sent : w'.deliveries ≡ last.deliveries

  module _ (policy : RetryPolicy R) (is_policy : IsPolicy R policy) where
    approve_row-Approved :
        (w : World R) (exchanges : ℕ → Exchange) (admin id : ℕ) (o : Option Recommendation)
        → w.recommendations id ≡ o
        → let w' = (approve_row R rd policy exchanges admin id o w.now (after_get w)).1 in
          Sent w.deliveries w' ⊎ ApprovedDeliveries w id w'
    unfolding approve_row ◌>>=◌
    approve_row-Approved w exchanges admin id none q = inl refl
    approve_row-Approved w exchanges admin id (some rec) q =
        elim (Bool-cases (is_pending rec.status)) [
          | inr closed ↦ rw closed (inl refl)
          | inl pend ↦ rw pend (elim (Bool-cases (ltb rec.expires_at w.now)) [
            | inl late ↦ rw late (inl refl)
            | inr early ↦ rw early (
                let (r, w1) = call_execute R rd policy exchanges id (after_get w) in
                inr (record {
                  rec = rec;
                  row = q;
                  status = pend;
                  unexpired = early;
                  last = w1;
                  runs = call_execute-AtMost R rd policy exchanges id (after_get w) is_policy;
                  sent = after_call-deliveries admin id r w1;
                }))
          ])
        ]

    -- An approval, whose client sends its request by a policy of at most three retries, sends nothing,
    -- or at most four deliveries of runs of the decision engine one after the other, each of which
    -- found the recommendation due; it sends only for a recommendation that the route found pending
    -- and unexpired.
    pub approve-ApprovedDeliveries :
        (w : World R) (exchanges : ℕ → Exchange) (admin id : ℕ)
        → let w' = (approve R rd policy exchanges admin id w).1 in
          Sent w.deliveries w' ⊎ ApprovedDeliveries w id w'
    unfolding approve get ◌>>=◌
    approve-ApprovedDeliveries w exchanges admin id = elim (Bool-cases (w.db_up w.db_calls)) [
      | inl up ↦ rw up (approve_row-Approved w exchanges admin id (w.recommendations id) refl)
      | inr down ↦ rw down (inl refl)
    ]
