-- ===== src/Gateway/Answered.antt =====
-- What the answers of push-handler.ts say: an acknowledgement that came, or another pod's success.
use Prim.Native.String.{String}
use text.Mathlib.Text.{◌==◌ as str_eq}
use text.Mathlib.TextEquality.{eq_iff}
use wince_backend.Prelude.{
  ℕ, ◌≡◌, ◌⊎◌, inl, inr, refl, subst, arith, Bool, true, Option, none, some, List, [], ◌∷◌, any,
}
use wince_backend.Types.{InShopPayload}
use wince_backend.Redis.{Redis}
use wince_backend.StringMap.{find, insert, find-all_of, all_of-erase}
use wince_backend.Gateway.{
  Config, Socket, Pod, Message, ack, other, Stage, awaiting_ack, asking, handle, take_message,
  acknowledged, clear_ack, open_socket, close_socket,
}
use wince_backend.Gateway.Runs.{
  InFlight, State, Event, opens, closes, receives, beats, pushes, times_out, reads, forwards,
  writes, polls, announces_elsewhere, closes_elsewhere, stores_elsewhere, find_push, step, run,
  settle, resolve, time_out, read, forward, write, received, begun, starting,
}
use wince_backend.Gateway.Registered.{
  registered-new, justified_by, below-suc, find_push_self, matches-find_push, registered-insert,
  all_justified, matches, local-cases, find_push-justified, registered, below,
}
use wince_backend.Gateway.Stages.{
  store-IsJustified, forward-IsJustified, write-IsJustified, more_acked, time_out-IsJustified,
  settle-IsJustified, on_push-IsJustified, read-IsJustified, IsJustified,
}

module _ {R : Redis} (cfg : Config) where
  -- The acknowledgement names the intervention under which the push is registered.
  resolve-IsJustified :
      (i : String) (s : State R) (o : Option ℕ)
      → IsJustified cfg.pod_ip s
      → any (str_eq i) s.acked ≡ true
      → ((push : ℕ) → o ≡ some push → matches i push s.in_flight ≡ true)
      → IsJustified cfg.pod_ip (resolve cfg o s)
  resolve-IsJustified i s none j a m = j
  resolve-IsJustified i s (some push) j a m =
      on_push-IsJustified cfg (settle cfg) (find_push push s.in_flight) s
        (λ f e. settle-IsJustified cfg f.stage f s j (find_push_self push f s.in_flight e) (
          subst (λ x. any (str_eq x) s.acked ≡ true)
            ((eq_iff i f.payload.intervention_id).0
              (matches-find_push i push f s.in_flight (m push refl) e))
            a))
        j

  acknowledge-IsJustified :
      (i : String) (st : R.Store) (s : State R) (o : Option ℕ)
      → IsJustified cfg.pod_ip s
      → ((push : ℕ) → o ≡ some push → find i s.pod.ack_registry ≡ some push)
      → IsJustified cfg.pod_ip (
          resolve cfg o
            (record s { pod = clear_ack o (ack i) s.pod; store = st; acked = i ∷ s.acked }))
  acknowledge-IsJustified i st s none j h =
      store-IsJustified (record s { acked = i ∷ s.acked }) s.pod st refl (more_acked i s j)
  acknowledge-IsJustified i st s (some push) j h =
      resolve-IsJustified i _ (some push)
        (record {
          answers = (more_acked i s j).answers;
          numbered = j.numbered;
          registry = all_of-erase (registered s.next s.in_flight) i s.pod.ack_registry j.registry;
        })
        (ground (arith, eq_iff i i))
        (λ t e. ground (
          arith,
          find-all_of (registered s.next s.in_flight) i t s.pod.ack_registry j.registry (h t e),
        ))

  receive-IsJustified :
      (up : Bool) (now : ℕ) (ws : Socket) (m : Message) (s : State R)
      → IsJustified cfg.pod_ip s
      → IsJustified cfg.pod_ip (received cfg up now ws m (take_message m s.pod) s)
  unfolding take_message
  receive-IsJustified up now ws other s j = store-IsJustified s s.pod _ refl j
  receive-IsJustified up now ws (ack i) s j =
      acknowledge-IsJustified i _ s (acknowledged (ack i) s.pod) j (λ push e. ground arith)

  begin-IsJustified :
      (i : String) (p : InShopPayload) (s : State R) (began : Stage × Pod)
      → IsJustified cfg.pod_ip s
      → (began ≡ (asking, s.pod))
        ⊎ (began ≡ (
          awaiting_ack,
          record s.pod { ack_registry = insert p.intervention_id s.next s.pod.ack_registry },
        ))
      → IsJustified cfg.pod_ip (begun cfg s.next i p began s)
  unfolding all_justified below
  begin-IsJustified i p s began j (inl e) =
      let f : InFlight = record { push = s.next; session_id = i; payload = p; stage = asking } in
      rw e (record {
        answers = j.answers;
        numbered = ground (arith, below-suc s.next s.in_flight, j.numbered);
        registry = registered-new s.next f s.in_flight s.pod.ack_registry refl j.registry;
      })
  begin-IsJustified i p s began j (inr e) =
      let f : InFlight = record {
        push = s.next;
        session_id = i;
        payload = p;
        stage = awaiting_ack;
      } in
      rw e (record {
        answers = j.answers;
        numbered = ground (arith, below-suc s.next s.in_flight, j.numbered);
        registry = registered-insert f s.in_flight s.pod.ack_registry j.numbered j.registry;
      })

  step-IsJustified :
      (now : ℕ) (e : Event) (s : State R)
      → IsJustified cfg.pod_ip s
      → IsJustified cfg.pod_ip (step cfg now e s)
  unfolding step open_socket close_socket handle
  step-IsJustified now (opens up ws) s j = store-IsJustified s _ _ refl j
  step-IsJustified now (closes up ws) s j = store-IsJustified s _ _ refl j
  step-IsJustified now (receives up ws m) s j = receive-IsJustified up now ws m s j
  step-IsJustified now (beats pings up) s j = store-IsJustified s s.pod _ refl j
  step-IsJustified now (pushes r i p) s j =
      begin-IsJustified i p s (handle r s.next i p s.pod) j
        (local-cases (find i s.pod.socket_map) r s.next p s.pod)
  step-IsJustified now (times_out push) s j =
      on_push-IsJustified cfg (time_out cfg) (find_push push s.in_flight) s
        (λ f e. time_out-IsJustified cfg f.stage f s j (find_push_self push f s.in_flight e)) j
  step-IsJustified now (reads up push) s j =
      on_push-IsJustified cfg (read cfg up now) (find_push push s.in_flight) s
        (λ f e. read-IsJustified cfg up now f.stage f s j (find_push_self push f s.in_flight e)) j
  step-IsJustified now (forwards ok push) s j =
      on_push-IsJustified cfg (forward cfg ok) (find_push push s.in_flight) s
        (λ f e.
          forward-IsJustified cfg ok f.stage f s j (find_push_self push f s.in_flight e)
            (find_push-justified cfg.pod_ip s.acked s.forwarded push f s.in_flight e j.answers))
        j
  step-IsJustified now (writes up push) s j =
      on_push-IsJustified cfg (write cfg up now) (find_push push s.in_flight) s
        (λ f e. write-IsJustified cfg up now f.stage f s j (find_push_self push f s.in_flight e)) j
  step-IsJustified now (polls up i) s j = store-IsJustified s s.pod _ refl j
  step-IsJustified now (announces_elsewhere pod up ws) s j = store-IsJustified s s.pod _ refl j
  step-IsJustified now (closes_elsewhere pod up ws) s j = store-IsJustified s s.pod _ refl j
  step-IsJustified now (stores_elsewhere pod up i p) s j = store-IsJustified s s.pod _ refl j

  run-IsJustified :
      (es : List (ℕ × Event)) (s : State R)
      → IsJustified cfg.pod_ip s
      → IsJustified cfg.pod_ip (run cfg es s)
  unfolding run
  run-IsJustified [] s j = j
  run-IsJustified ((now, e) ∷ es) s j =
      run-IsJustified es (step cfg now e s) (step-IsJustified now e s j)

starting-IsJustified :
    {R : Redis} {own : String} {st : R.Store} → IsJustified own (starting {R = R} st)
unfolding all_justified below
starting-IsJustified = record { answers = refl; numbered = refl; registry = refl }

-- In any run from a pod without sockets, a push that is answered as delivered over its socket is one
-- whose intervention an acknowledgement named, a push that is answered as forwarded is one for which
-- a pod at another address than this one's answered with success, and no push is being forwarded to
-- this pod's own address.
pub run-answered :
    (R : Redis) (cfg : Config) (st : R.Store) (es : List (ℕ × Event)) (push : ℕ) (f : InFlight)
    → find_push push (run cfg es (starting {R = R} st)).in_flight ≡ some f
    → let s = run cfg es (starting {R = R} st) in
      justified_by cfg.pod_ip s.acked s.forwarded f.stage f.payload.intervention_id f.push ≡ true
run-answered R cfg st es push f e =
    let s = run cfg es (starting {R = R} st) in
    find_push-justified cfg.pod_ip s.acked s.forwarded push f s.in_flight e
      (run-IsJustified cfg es (starting {R = R} st) starting-IsJustified).answers
