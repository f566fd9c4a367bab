-- ===== src/Consumer/Batch.antt =====
-- What decision.consumer.ts resolves of a batch, and what its retries come to.
use Prim.Native.String.{String}
use wince_backend.Prelude.{
  ℕ, suc, ℤ, ◌≡◌, refl, ap, ◌∙◌, arith, true, ◌||◌, Option, List, [], ◌∷◌, ◌++◌, map, All,
  Bool-cases, inl, inr, false, ◌⊎◌, if◌then◌else◌,
}
use wince_backend.Types.{EnrichedEvent}
use wince_backend.Redis.{Redis}
use wince_backend.World.{World}
use wince_backend.World.Monad.{M, Error, Outcome, kafka_error, ok, threw, ◌>>=◌}
use wince_backend.World.Monad.Throws.{Throws, Throws-bind}
use wince_backend.World.Monad.Returns.{
  Returns, Returns-Keeps, Returns-pure, Returns-bind, Returns-weaken, Keeps-nothing,
}
use wince_backend.World.Monad.Total.{IsTotal, IsTotal-pure, IsTotal-bind, try_with-IsTotal}
use wince_backend.Orchestrator.{Readers}
use wince_backend.Orchestrator.Decide.{Scorers, decide}
use wince_backend.Orchestrator.Decide.Modes.{decide-IsTotal}
use wince_backend.Consumer.Faults.{faults, process-IsTotal, process-Throws}
use wince_backend.Consumer.Resolve.{
  offsets, is_in, handled, resolve_prefix-prefix, resolve_prefix-done, resolve_prefix-of_done,
  is_in-sort, All-is_in-offsets, All-is_in-transfer, All-offsets, handled-all, offsets-parse,
}
use wince_backend.Consumer.{
  Parsed, Incoming, Callbacks, Message, parse_message, sort_by_rank, with_retry, answer, process,
  resolve_batch, each_batch,
}

module _ {R : Redis} {A : Type 0} where
  -- Retries around a handler that never throws make one attempt.
  with_retry-IsTotal :
      (delays : List ℕ) (m : M R A) → IsTotal m → (w : World R) → with_retry delays m w ≡ m w
  unfolding with_retry
  with_retry-IsTotal [] m k w = refl
  with_retry-IsTotal (d ∷ ds) m k w = try_with-IsTotal m _ k w

module _ (R : Redis) (rd : Readers) (sc : Scorers) (show_id : ℤ → String) where
  -- Retries around `decide`, with any delays, come to one call of it.
  pub with_retry-decide :
      (delays : List ℕ) (e : EnrichedEvent) (w : World R)
      → with_retry delays (decide R rd sc e) w ≡ decide R rd sc e w
  with_retry-decide delays e w =
      with_retry-IsTotal delays (decide R rd sc e) (decide-IsTotal R rd sc e) w

  -- The offsets that the loop marks as done: those it began with, and those of the messages handled.
  process-handled :
      (cb : Callbacks) (n : ℕ) (ms : List Parsed) (done : List ℕ)
      → Returns
          (λ _. Unit {0})
          (λ d _.
            (o : ℕ) → is_in d o ≡ (is_in done o || is_in (offsets (handled cb.running n ms)) o))
          (process R rd sc show_id cb n ms done)
  unfolding process
  process-handled cb n [] done = Returns-pure done (λ w _ o. ground arith)
  process-handled cb n (m ∷ ms) done = elim (Bool-cases (cb.running n)) [
    | inl q ↦ rw q (
        Returns-bind _ _ (Returns-Keeps (Keeps-nothing _)) (λ _.
          Returns-bind _ _ (Returns-Keeps (Keeps-nothing _)) (λ _.
            Returns-weaken _ (process-handled cb (suc n) ms (m.offset ∷ done))
              (λ d w h o. ground (arith, h o)))))
    | inr q ↦ rw q (Returns-pure done (λ w _ o. ground arith))
  ]

  -- the batch in the order of priority
  abbrev pub ordered : (String → Option Incoming) → List Message → List Parsed
  ordered parse_json messages = sort_by_rank (map (parse_message parse_json) messages)

  -- the messages that a batch handles
  abbrev pub handled_of : (String → Option Incoming) → Callbacks → List Message → List Parsed
  handled_of parse_json cb messages = handled cb.running 0 (ordered parse_json messages)

  -- A prefix of the batch's offsets, each of a message that was handled.
  pub record IsResolved (parse_json : String → Option Incoming) (cb : Callbacks)
      (messages : List Message) (resolved : List ℕ) : Type 0 where
    pub rest : List ℕ
    pub is_prefix : resolved ++ rest ≡ map (λ m. m.offset) messages
    pub all_handled :
        All (λ o. is_in (offsets (handled_of parse_json cb messages)) o ≡ true) resolved

  all_done :
      (cb : Callbacks) (parsed : List Parsed)
      → ((i : ℕ) → cb.running i ≡ true)
      → (d : List ℕ) (o : ℕ)
      → is_in d o ≡ is_in (offsets (handled cb.running 0 (sort_by_rank parsed))) o
      → is_in d o ≡ is_in (offsets parsed) o
  all_done cb parsed run d o h =
      h
      ∙ ap (λ ms. is_in (offsets ms) o) (handled-all cb.running 0 (sort_by_rank parsed) run)
      ∙ is_in-sort parsed o

  module _ (parse_json : String → Option Incoming) (cb : Callbacks) (messages : List Message) where
    resolve_batch-Returns :
        Returns
          (λ _. Unit {0})
          (λ r _.
            IsResolved parse_json cb messages r
            × (((i : ℕ) → cb.running i ≡ true) → r ≡ map (λ m. m.offset) messages))
          (resolve_batch R rd sc show_id parse_json cb messages)
    unfolding resolve_batch
    resolve_batch-Returns =
        let parsed = map (parse_message parse_json) messages in
        Returns-bind _ _ (process-handled cb 0 (sort_by_rank parsed) []) (λ d.
          Returns-pure _ (λ w h.
            let (rest, is_prefix) = resolve_prefix-prefix d parsed in
            (
              record {
                rest = rest;
                is_prefix = is_prefix ∙ offsets-parse parse_json messages;
                all_handled =
                    All-is_in-transfer d (offsets (handled_of parse_json cb messages)) h _
                      (resolve_prefix-done d parsed);
              },
              λ run.
                  resolve_prefix-of_done d parsed (
                    All-offsets d (offsets parsed) (λ o. all_done cb parsed run d o (h o)) parsed
                      (All-is_in-offsets parsed))
                  ∙ offsets-parse parse_json messages,
            )))

    resolve_batch-IsTotal :
        faults R rd sc show_id cb 0 (ordered parse_json messages) ≡ false
        → IsTotal (resolve_batch R rd sc show_id parse_json cb messages)
    unfolding resolve_batch
    resolve_batch-IsTotal h =
        IsTotal-bind _ _ (process-IsTotal R rd sc show_id cb 0 (ordered parse_json messages) [] h)
          (λ d. IsTotal-pure _)

    resolve_batch-Throws :
        faults R rd sc show_id cb 0 (ordered parse_json messages) ≡ true
        → Throws (resolve_batch R rd sc show_id parse_json cb messages)
    unfolding resolve_batch
    resolve_batch-Throws h =
        Throws-bind _ _ (process-Throws R rd sc show_id cb 0 (ordered parse_json messages) [] h)

    each_batch-Throws :
        faults R rd sc show_id cb 0 (ordered parse_json messages) ≡ true
        → Throws (each_batch R rd sc show_id parse_json cb messages)
    unfolding each_batch
    each_batch-Throws h = Throws-bind _ _ (resolve_batch-Throws h)

  -- what a batch returns that resolved `r`
  abbrev pub committed : Callbacks → List ℕ → Outcome (List ℕ)
  committed cb r = if cb.commits then ok r else threw kafka_error

  module _ (parse_json : String → Option Incoming) (cb : Callbacks) (messages : List Message)
      (w : World R) where
    each_batch-committed :
        (r : List ℕ)
        → (resolve_batch R rd sc show_id parse_json cb messages w).0 ≡ ok r
        → (each_batch R rd sc show_id parse_json cb messages w).0 ≡ committed cb r
    unfolding each_batch answer ◌>>=◌
    each_batch-committed r q = elim (Bool-cases cb.commits) [
      | inl c ↦ rw (q, c) refl
      | inr c ↦ rw (q, c) refl
    ]

    -- A batch that comes to no message of a customer whose type is no text, and to no heartbeat that
    -- fails, resolves a prefix of its offsets, each of them the offset of a message that was handled,
    -- whatever else fails under it; it returns, or throws where the commit at its end fails. A batch
    -- that comes to such a message or heartbeat resolves nothing and throws.
    pub each_batch-IsResolved :
        ((faults R rd sc show_id cb 0 (ordered parse_json messages) ≡ false)
          × ((r : List ℕ) × ((resolve_batch R rd sc show_id parse_json cb messages w).0 ≡ ok r)
              × IsResolved parse_json cb messages r
              × ((each_batch R rd sc show_id parse_json cb messages w).0 ≡ committed cb r)))
        ⊎ ((faults R rd sc show_id cb 0 (ordered parse_json messages) ≡ true)
            × ((e : Error) × ((resolve_batch R rd sc show_id parse_json cb messages w).0 ≡ threw e))
            × ((e : Error) × ((each_batch R rd sc show_id parse_json cb messages w).0 ≡ threw e)))
    each_batch-IsResolved =
        elim (Bool-cases (faults R rd sc show_id cb 0 (ordered parse_json messages))) [
          | inl f ↦ inr (
            f,
            (resolve_batch-Throws parse_json cb messages f).throws w,
            (each_batch-Throws parse_json cb messages f).throws w,
          )
          | inr f ↦
              (let (r, q) = (resolve_batch-IsTotal parse_json cb messages f).returns w in
                inl (
                  f,
                  (
                    r,
                    q,
                    ((resolve_batch-Returns parse_json cb messages).at w tt r q).0,
                    each_batch-committed r q,
                  ),
                ))
        ]

    -- A batch whose turns all run, where every message of a customer has a type and every heartbeat
    -- succeeds, resolves the offsets of all its messages in their order.
    pub each_batch-all :
        ((i : ℕ) → cb.running i ≡ true)
        → faults R rd sc show_id cb 0 (ordered parse_json messages) ≡ false
        → ((resolve_batch R rd sc show_id parse_json cb messages w).0
            ≡ ok (map (λ m. m.offset) messages))
          × ((each_batch R rd sc show_id parse_json cb messages w).0
              ≡ committed cb (map (λ m. m.offset) messages))
    each_batch-all run f =
        let (r, q) = (resolve_batch-IsTotal parse_json cb messages f).returns w in
        let all = q ∙ ap ok (((resolve_batch-Returns parse_json cb messages).at w tt r q).1 run) in
        (all, each_batch-committed _ all)
