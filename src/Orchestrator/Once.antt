-- ===== src/Orchestrator/Once.antt =====
-- At most one delivery in a run of intervention.service.ts.
use Prim.Native.String.{String}
use wince_backend.Prelude.{◌≡◌, refl, ◌⊎◌, inl, inr, Option, List, [], ◌∷◌, ◌++◌}
use wince_backend.Redis.{Redis}
use wince_backend.World.{World, Delivery}
use wince_backend.World.Monad.{M, ◌>>=◌}
use wince_backend.World.Monad.Keeps.{Keeps, Leads, Leads-weaken, Leads-bind}
use wince_backend.Outbound
use wince_backend.Orchestrator.Quiet.{Sent}

module _ {R : Redis} (d : Option String → Delivery) (l : List Delivery) where
  -- Nothing was sent after `l`, or one delivery, whose discount code is drawn on the way.
  pub AtMostOne : World R → Type 0
  AtMostOne w = Sent l w ⊎ ((code : Option String) × (w.deliveries ≡ l ++ d code ∷ []))

  pub AtMostOne-cases :
      (w : World R)
      → AtMostOne w
      → Sent l w ⊎ ((code : Option String) × (w.deliveries ≡ l ++ d code ∷ []))
  unfolding AtMostOne
  AtMostOne-cases w a = a

  pub AtMostOne-of_none : (w : World R) → Sent l w → AtMostOne w
  unfolding AtMostOne
  AtMostOne-of_none w h = inl h

module _ (R : Redis) (d : Option String → Delivery) (l : List Delivery) where
  pub route-Leads :
      (code : Option String) → Leads (Sent l) (AtMostOne d l) (Outbound.route R (d code))
  unfolding Outbound.route AtMostOne ◌>>=◌
  route-Leads code = record { at = λ w h. inr (code, rw h refl) }

module _ {R : Redis} (d : Option String → Delivery) (l : List Delivery) {A : Type 0} where
  pub Keeps-AtMostOne :
      (m : M R A) → ((l' : List Delivery) → Keeps (Sent l') m) → Keeps (AtMostOne d l) m
  unfolding AtMostOne
  Keeps-AtMostOne m k = record {
    at = λ w a. elim a [
      | inl h ↦ inl ((k l).at w h)
      | inr (code, h) ↦ inr (code, (k (l ++ d code ∷ [])).at w h)
    ];
  }

  pub AtMostOne-quiet : (m : M R A) → Keeps (Sent l) m → Leads (Sent l) (AtMostOne d l) m
  AtMostOne-quiet m k = Leads-weaken m (AtMostOne-of_none d l) k

  module _ {B : Type 0} where
    -- a first part that sends nothing
    pub AtMostOne-after_quiet :
        (m : M R B) (f : B → M R A)
        → Keeps (Sent l) m
        → ((b : B) → Leads (Sent l) (AtMostOne d l) (f b))
        → Leads (Sent l) (AtMostOne d l) (m >>= f)
    AtMostOne-after_quiet m f k kf =
        Leads-bind m f (Leads-weaken m (λ w h. h) k) kf (AtMostOne-of_none d l)

    -- a last part that sends nothing
    pub AtMostOne-then_quiet :
        (m : M R B) (f : B → M R A)
        → Leads (Sent l) (AtMostOne d l) m
        → ((b : B) (l' : List Delivery) → Keeps (Sent l') (f b))
        → Leads (Sent l) (AtMostOne d l) (m >>= f)
    AtMostOne-then_quiet m f k kf =
        Leads-bind m f k (λ b. Leads-weaken (f b) (λ w h. h) (Keeps-AtMostOne (f b) (kf b)))
          (λ w h. h)
