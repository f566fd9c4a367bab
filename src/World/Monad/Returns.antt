-- ===== src/World/Monad/Returns.antt =====
-- What holds of a handler that returns: its value and its last state.
use wince_backend.Prelude.{◌≡◌, refl, arith, subst, Bool, true, false, if◌then◌else◌}
use wince_backend.Redis.{Redis}
use wince_backend.World.{World}
use wince_backend.World.Monad.{
  M, Error, Outcome, ok, threw, pure, throw, recover, try_with, continue, ◌>>=◌,
}
use wince_backend.World.Monad.Keeps.{Keeps}

-- From a state in `P`, `m` throws, or returns a value and a state in `Q`.
pub record Returns {R : Redis} {A : Type 0} (P : World R → Type 0) (Q : A → World R → Type 0)
    (m : M R A) : Type 0 where
  pub at : (w : World R) → P w → (a : A) → (m w).0 ≡ ok a → Q a (m w).1

module _ {R : Redis} {A : Type 0} {P : World R → Type 0} where
  pub Returns-Keeps : {m : M R A} → Keeps P m → Returns P (λ _. P) m
  Returns-Keeps {m = m} k = record { at = λ w p a h. k.at w p }

module _ {R : Redis} {A : Type 0} (Q : A → World R → Type 0) where
  Returns-recover :
      (h : Error → M R A) (r : Outcome A) (w : World R)
      → ((e : Error) → Returns (λ _. Unit {0}) Q (h e))
      → ((a : A) → r ≡ ok a → Q a w)
      → (a : A) → (recover r h w).0 ≡ ok a
      → Q a (recover r h w).1
  Returns-recover h (ok b) w kh q a e = q a e
  Returns-recover h (threw x) w kh q a e = (kh x).at w tt a e

module _ {R : Redis} {A : Type 0} {P : World R → Type 0} {Q : A → World R → Type 0} where
  pub Returns-pure : (a : A) → ((w : World R) → P w → Q a w) → Returns P Q (pure a)
  unfolding ◌>>=◌
  Returns-pure a i = record { at = λ w p b h. subst (λ x. Q x w) (cc) (i w p) }

  pub Returns-throw : (e : Error) → Returns P Q (throw {A = A} e)
  unfolding ◌>>=◌
  Returns-throw e = record { at = λ w p a h. ground arith }

  pub Returns-weaken :
      {S : A → World R → Type 0} (m : M R A)
      → Returns P S m
      → ((a : A) (w : World R) → S a w → Q a w)
      → Returns P Q m
  Returns-weaken m k i = record { at = λ w p a h. i a (m w).1 (k.at w p a h) }

  pub Returns-if :
      (b : Bool) (m n : M R A) → Returns P Q m → Returns P Q n → Returns P Q (if b then m else n)
  Returns-if true m n km kn = km
  Returns-if false m n km kn = kn

  -- A handler of errors that ends in `Q` whatever the state in which it starts.
  pub Returns-try :
      (m : M R A) (h : Error → M R A)
      → Returns P Q m
      → ((e : Error) → Returns (λ _. Unit {0}) Q (h e))
      → Returns P Q (try_with m h)
  unfolding try_with ◌>>=◌
  Returns-try m h km kh = record { at = λ w p. Returns-recover Q h (m w).0 (m w).1 kh (km.at w p) }

module _ {R : Redis} {A B : Type 0} (Q : A → World R → Type 0) (S : B → World R → Type 0) where
  Returns-continue :
      (f : A → M R B) (r : Outcome A) (w : World R)
      → ((a : A) → Returns (Q a) S (f a))
      → ((a : A) → r ≡ ok a → Q a w)
      → (b : B) → (continue r f w).0 ≡ ok b
      → S b (continue r f w).1
  Returns-continue f (ok a) w kf q b h = (kf a).at w (q a refl) b h
  Returns-continue f (threw e) w kf q b h = ground arith

module _ {R : Redis} {A B : Type 0} {P : World R → Type 0} {Q : A → World R → Type 0}
    {S : B → World R → Type 0} where
  pub Returns-bind :
      (m : M R A) (f : A → M R B)
      → Returns P Q m
      → ((a : A) → Returns (Q a) S (f a))
      → Returns P S (m >>= f)
  unfolding ◌>>=◌
  Returns-bind m f km kf = record {
    at = λ w p. Returns-continue Q S f (m w).0 (m w).1 kf (km.at w p);
  }

module _ {R : Redis} {A : Type 0} where
  pub Keeps-nothing : (m : M R A) → Keeps (λ _. Unit {0}) m
  Keeps-nothing m = record { at = λ w _. tt }
