-- ===== src/World/Monad/Throws.antt =====
-- Handlers that throw in every state.
use wince_backend.Prelude.{◌≡◌, refl, arith}
use wince_backend.Redis.{Redis}
use wince_backend.World.{World}
use wince_backend.World.Monad.{M, Error, Outcome, ok, threw, throw, continue, ◌>>=◌}

-- In every state, `m` throws.
pub record Throws {R : Redis} {A : Type 0} (m : M R A) : Type 0 where
  pub throws : (w : World R) → (e : Error) × ((m w).0 ≡ threw e)

module _ {R : Redis} {A : Type 0} where
  pub Throws-throw : (e : Error) → Throws {R = R} {A = A} (throw e)
  unfolding ◌>>=◌
  Throws-throw e = record { throws = λ w. (e, refl) }

module _ {R : Redis} {A B : Type 0} where
  Throws-continue_threw :
      (f : A → M R B) (r : Outcome A) (w : World R) (e : Error)
      → r ≡ threw e
      → (x : Error) × ((continue r f w).0 ≡ threw x)
  Throws-continue_threw f (ok a) w e q = ground arith
  Throws-continue_threw f (threw x) w e q = (x, refl)

  Throws-continue :
      (f : A → M R B) (r : Outcome A) (w : World R)
      → ((a : A) → Throws (f a))
      → (x : Error) × ((continue r f w).0 ≡ threw x)
  Throws-continue f (ok a) w k = (k a).throws w
  Throws-continue f (threw x) w k = (x, refl)

  pub Throws-bind : (m : M R A) (f : A → M R B) → Throws m → Throws (m >>= f)
  unfolding ◌>>=◌
  Throws-bind m f k = record {
    throws = λ w. let (e, q) = k.throws w in Throws-continue_threw f (m w).0 (m w).1 e q;
  }

  -- Whether `m` throws or returns, what follows throws.
  pub Throws-bind_rest : (m : M R A) (f : A → M R B) → ((a : A) → Throws (f a)) → Throws (m >>= f)
  unfolding ◌>>=◌
  Throws-bind_rest m f k = record { throws = λ w. Throws-continue f (m w).0 (m w).1 k }
