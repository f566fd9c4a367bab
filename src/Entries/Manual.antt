-- ===== src/Entries/Manual.antt =====
-- The ways into `decide` where the stores approve by hand.
use Prim.Native.String.{String}
use wince_backend.Prelude.{ℕ, ◌≡◌, refl, ◌∙◌, Option, none, some, List, [], ◌∷◌}
use wince_backend.Types.{EnrichedEvent, manual}
use wince_backend.Redis.{Redis}
use wince_backend.World.{World, Delivery}
use wince_backend.World.Monad.{ok}
use wince_backend.World.Monad.Keeps.{Keeps, Keeps-bind, keeps_rules}
use wince_backend.World.Monad.Total.{IsTotal, IsTotal-bind, total_rules}
use wince_backend.SessionFeatures.{SessionContext, get_session_context, to_enriched_event}
use wince_backend.Scheduler.{pop_due, remove_fetched}
use wince_backend.Orchestrator.{Readers}
use wince_backend.Orchestrator.Quiet.{Sent, Sent-IsQuiet, context_quiet}
use wince_backend.Orchestrator.Decide.{Scorers, approval_mode, decide}
use wince_backend.Orchestrator.Decide.Modes.{decide-manual}
use wince_backend.Entries.{
  decide_context, process_session, process_sessions, tick, process_trigger, handle_trigger,
  recalculate_context, handle_recalculate,
}

module _ (R : Redis) (rd : Readers) (sc : Scorers) (show_eid : String → String) where
  module _ (all_manual : (s : ℕ) → approval_mode (rd.policy_of s) ≡ manual)
      (l : List Delivery) where
    decide-Sent : (e : EnrichedEvent) → Keeps (Sent l) (decide R rd sc e)
    decide-Sent e = record { at = λ w p. decide-manual R rd sc w e (all_manual e.store_id) ∙ p }

    context-Sent : (sid : String) → Keeps (Sent l) (get_session_context R sid)
    context-Sent sid = context_quiet R (Sent-IsQuiet l) sid

    decide_context-Sent :
        (ctx : Option SessionContext) → Keeps (Sent l) (decide_context R rd sc show_eid ctx)
    unfolding decide_context
    decide_context-Sent none = search keeps_rules
    decide_context-Sent (some ctx) = decide-Sent (to_enriched_event show_eid ctx)

    process_session-Sent : (sid : String) → Keeps (Sent l) (process_session R rd sc show_eid sid)
    unfolding process_session
    process_session-Sent sid = search (keeps_rules, context-Sent, decide_context-Sent)

    process_sessions-Sent :
        (sids : List String) → Keeps (Sent l) (process_sessions R rd sc show_eid sids)
    unfolding process_sessions
    process_sessions-Sent [] = search keeps_rules
    process_sessions-Sent (sid ∷ sids) =
        Keeps-bind (process_session R rd sc show_eid sid) _ (process_session-Sent sid)
          (λ _. process_sessions-Sent sids)

    remove_fetched-Sent :
        (now : ℕ) (members : List String) → Keeps (Sent l) (remove_fetched R now members)
    remove_fetched-Sent now [] = search keeps_rules
    remove_fetched-Sent now (m ∷ ms) = search (keeps_rules, (Sent-IsQuiet l).blind)

    pop_due-Sent : Keeps (Sent l) (pop_due R)
    unfolding pop_due
    pop_due-Sent = search (keeps_rules, (Sent-IsQuiet l).blind, remove_fetched-Sent)

    tick-Sent : Keeps (Sent l) (tick R rd sc show_eid)
    unfolding tick
    tick-Sent = Keeps-bind (pop_due R) _ pop_due-Sent process_sessions-Sent

    process_trigger-Sent :
        (body : Option EnrichedEvent) → Keeps (Sent l) (process_trigger R rd sc show_eid body)
    unfolding process_trigger
    process_trigger-Sent none = search keeps_rules
    process_trigger-Sent (some e) = search (keeps_rules, context-Sent, decide-Sent)

    handle_trigger-Sent :
        (s secret : String) (body : Option EnrichedEvent)
        → Keeps (Sent l) (handle_trigger R rd sc show_eid s secret body)
    unfolding handle_trigger
    handle_trigger-Sent s secret body = search (keeps_rules, process_trigger-Sent)

    recalculate_context-Sent :
        (sid : String) (ctx : Option SessionContext)
        → Keeps (Sent l) (recalculate_context R rd sc show_eid sid ctx)
    unfolding recalculate_context
    recalculate_context-Sent sid none = search keeps_rules
    recalculate_context-Sent sid (some ctx) = search (keeps_rules, decide-Sent)

    handle_recalculate-Sent :
        (body : Option String) → Keeps (Sent l) (handle_recalculate R rd sc show_eid body)
    unfolding handle_recalculate
    handle_recalculate-Sent none = search keeps_rules
    handle_recalculate-Sent (some sid) =
        search (keeps_rules, context-Sent, recalculate_context-Sent)

  pop_due-IsTotal : IsTotal (pop_due R)
  unfolding pop_due
  pop_due-IsTotal = search total_rules

  context-IsTotal : (sid : String) → IsTotal (get_session_context R sid)
  unfolding get_session_context
  context-IsTotal sid = search total_rules

  process_session-IsTotal : (sid : String) → IsTotal (process_session R rd sc show_eid sid)
  unfolding process_session
  process_session-IsTotal sid = search total_rules

  process_sessions-IsTotal : (sids : List String) → IsTotal (process_sessions R rd sc show_eid sids)
  unfolding process_sessions
  process_sessions-IsTotal [] = search total_rules
  process_sessions-IsTotal (sid ∷ sids) =
      IsTotal-bind (process_session R rd sc show_eid sid) _ (process_session-IsTotal sid)
        (λ _. process_sessions-IsTotal sids)

  tick-IsTotal : IsTotal (tick R rd sc show_eid)
  unfolding tick
  tick-IsTotal = IsTotal-bind (pop_due R) _ pop_due-IsTotal process_sessions-IsTotal

  tick-returns : (w : World R) → (tick R rd sc show_eid w).0 ≡ ok tt
  tick-returns w = let (a, q) = tick-IsTotal.returns w in q

  -- A tick of the re-evaluation returns, whatever fails under it. Where the policy of every store is
  -- manual or could not be read, it sends nothing, nor do a trigger and a recalculation.
  pub entries-manual :
      (w : World R) (s secret : String) (trigger : Option EnrichedEvent) (sid : Option String)
      → ((s : ℕ) → approval_mode (rd.policy_of s) ≡ manual)
      → ((tick R rd sc show_eid w).0 ≡ ok tt)
        × ((tick R rd sc show_eid w).1.deliveries ≡ w.deliveries)
        × ((handle_trigger R rd sc show_eid s secret trigger w).1.deliveries ≡ w.deliveries)
        × ((handle_recalculate R rd sc show_eid sid w).1.deliveries ≡ w.deliveries)
  entries-manual w s secret trigger sid m = (
    tick-returns w,
    (tick-Sent m w.deliveries).at w refl,
    (handle_trigger-Sent m w.deliveries s secret trigger).at w refl,
    (handle_recalculate-Sent m w.deliveries sid).at w refl,
  )
