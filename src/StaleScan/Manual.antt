-- ===== src/StaleScan/Manual.antt =====
-- A scan of stale-scanner.service.ts where the stores approve by hand.
use Prim.Native.String.{String}
use wince_backend.Prelude.{
  ℕ, ◌≡◌, refl, ◌∙◌, ℤ, Bool, true, false, Option, none, some, List, [], ◌∷◌,
}
use wince_backend.Types.{EnrichedEvent, manual}
use wince_backend.Redis.{Redis}
use wince_backend.World.{World, Delivery}
use wince_backend.World.Monad.{M, ok}
use wince_backend.World.Monad.Keeps.{Keeps, Keeps-bind, Keeps-redis, keeps_rules}
use wince_backend.World.Monad.Total.{IsTotal, IsTotal-pure, IsTotal-try, IsTotal-bind}
use wince_backend.SessionFeatures.{SessionContext, get_session_context}
use wince_backend.Orchestrator.{Readers}
use wince_backend.Orchestrator.Quiet.{Sent, Sent-IsQuiet, is_sent_quiet, context_quiet}
use wince_backend.Orchestrator.Decide.{Scorers, approval_mode, decide}
use wince_backend.Orchestrator.Decide.Modes.{decide-manual}
use wince_backend.StaleScan.{
  got_intervention, process_context, process_stale_session, get_contexts, process_all,
  stale_sessions, scan_contexts, scan_sessions, acquire_scan_lock, under_lock, scan, present,
}

module _ (R : Redis) (rd : Readers) (sc : Scorers) (show_eid : String → String)
    (prefetch : List SessionContext → M R Unit) where
  under_lock-IsTotal : (b : Bool) → IsTotal (under_lock R rd sc show_eid prefetch b)
  under_lock-IsTotal false = IsTotal-pure tt
  under_lock-IsTotal true = search (IsTotal-pure, IsTotal-try, IsTotal-bind)

  acquire_scan_lock-IsTotal : IsTotal (acquire_scan_lock R rd sc show_eid prefetch)
  unfolding acquire_scan_lock
  acquire_scan_lock-IsTotal = search (IsTotal-pure, IsTotal-try)

  scan-IsTotal : IsTotal (scan R rd sc show_eid prefetch)
  unfolding scan
  scan-IsTotal =
      IsTotal-bind (acquire_scan_lock R rd sc show_eid prefetch)
        (under_lock R rd sc show_eid prefetch) acquire_scan_lock-IsTotal under_lock-IsTotal

  scan-returns : (w : World R) → (scan R rd sc show_eid prefetch w).0 ≡ ok tt
  scan-returns w = let (a, q) = scan-IsTotal.returns w in q

  module _
      (prefetch_sends_nothing : (w : World R) (cs : List SessionContext)
        → (prefetch cs w).1.deliveries ≡ w.deliveries)
      (all_manual : (s : ℕ) → approval_mode (rd.policy_of s) ≡ manual) (l : List Delivery) where
    prefetch-Sent : (cs : List SessionContext) → Keeps (Sent l) (prefetch cs)
    prefetch-Sent cs = record { at = λ w p. prefetch_sends_nothing w cs ∙ p }

    decide-Sent : (e : EnrichedEvent) → Keeps (Sent l) (decide R rd sc e)
    decide-Sent e = record { at = λ w p. decide-manual R rd sc w e (all_manual e.store_id) ∙ p }

    got_intervention-Sent :
        (c : Option ℤ) → Keeps (Sent l) (got_intervention R rd sc show_eid prefetch c)
    unfolding got_intervention
    got_intervention-Sent none = search keeps_rules
    got_intervention-Sent (some c) = is_sent_quiet R (Sent-IsQuiet l) c

    process_context-Sent :
        (ctx : SessionContext) → Keeps (Sent l) (process_context R rd sc show_eid prefetch ctx)
    unfolding process_context
    process_context-Sent ctx = search (keeps_rules, got_intervention-Sent, decide-Sent)

    process_stale_session-Sent :
        (ctx : Option SessionContext)
        → Keeps (Sent l) (process_stale_session R rd sc show_eid prefetch ctx)
    unfolding process_stale_session
    process_stale_session-Sent none = search keeps_rules
    process_stale_session-Sent (some ctx) = search (keeps_rules, process_context-Sent)

    process_all-Sent :
        (ctxs : List (Option SessionContext))
        → Keeps (Sent l) (process_all R rd sc show_eid prefetch ctxs)
    unfolding process_all
    process_all-Sent [] = search keeps_rules
    process_all-Sent (c ∷ cs) =
        Keeps-bind (process_stale_session R rd sc show_eid prefetch c) _
          (process_stale_session-Sent c) (λ _. process_all-Sent cs)

    get_contexts-Sent :
        (sids : List String) → Keeps (Sent l) (get_contexts R rd sc show_eid prefetch sids)
    unfolding get_contexts
    get_contexts-Sent [] = search keeps_rules
    get_contexts-Sent (sid ∷ sids) =
        Keeps-bind (get_session_context R sid) _ (context_quiet R (Sent-IsQuiet l) sid) (λ ctx.
          Keeps-bind (get_contexts R rd sc show_eid prefetch sids) _ (get_contexts-Sent sids)
            (λ rest. search keeps_rules))

    scan_contexts-Sent :
        (ctxs : List (Option SessionContext))
        → Keeps (Sent l) (scan_contexts R rd sc show_eid prefetch ctxs)
    unfolding scan_contexts
    scan_contexts-Sent ctxs =
        Keeps-bind (prefetch (present ctxs)) _ (prefetch-Sent (present ctxs))
          (λ _. process_all-Sent ctxs)

    scan_sessions-Sent : Keeps (Sent l) (scan_sessions R rd sc show_eid prefetch)
    unfolding scan_sessions stale_sessions
    scan_sessions-Sent =
        Keeps-bind (stale_sessions R rd sc show_eid prefetch) _
          (Keeps-redis _ (Sent-IsQuiet l).blind)
          (λ sids.
            Keeps-bind (get_contexts R rd sc show_eid prefetch sids) _ (get_contexts-Sent sids)
              scan_contexts-Sent)

    under_lock-Sent : (b : Bool) → Keeps (Sent l) (under_lock R rd sc show_eid prefetch b)
    under_lock-Sent false = search keeps_rules
    under_lock-Sent true = search (keeps_rules, (Sent-IsQuiet l).blind, scan_sessions-Sent)

    acquire_scan_lock-Sent : Keeps (Sent l) (acquire_scan_lock R rd sc show_eid prefetch)
    unfolding acquire_scan_lock
    acquire_scan_lock-Sent = search (keeps_rules, (Sent-IsQuiet l).blind)

    scan-Sent : Keeps (Sent l) (scan R rd sc show_eid prefetch)
    unfolding scan
    scan-Sent =
        Keeps-bind (acquire_scan_lock R rd sc show_eid prefetch)
          (under_lock R rd sc show_eid prefetch) acquire_scan_lock-Sent under_lock-Sent

  -- Where the policy of every store is manual or could not be read, and the prefetch of features sends
  -- nothing, a scan of stale sessions returns, whatever fails under it, and sends nothing.
  pub scan-manual :
      (w : World R)
      → ((w : World R) (cs : List SessionContext) → (prefetch cs w).1.deliveries ≡ w.deliveries)
      → ((s : ℕ) → approval_mode (rd.policy_of s) ≡ manual)
      → ((scan R rd sc show_eid prefetch w).0 ≡ ok tt)
        × ((scan R rd sc show_eid prefetch w).1.deliveries ≡ w.deliveries)
  scan-manual w p m = (scan-returns w, (scan-Sent p m w.deliveries).at w refl)
