-- ===== src/World/Monad/Total.antt =====
-- Handlers that never throw.
use wince_backend.Prelude.{◌≡◌, refl, arith, Bool, true, false, if◌then◌else◌}
use wince_backend.Redis.{Redis}
use wince_backend.World.{World}
use wince_backend.World.Monad.{
  M, Error, Outcome, ok, threw, pure, gets, recover, try_with, continue, ◌>>=◌,
}

-- In every state, `m` returns.
pub record IsTotal {R : Redis} {A : Type 0} (m : M R A) : Type 0 where
  pub returns : (w : World R) → (a : A) × ((m w).0 ≡ ok a)

module _ {R : Redis} {A : Type 0} where
  pub IsTotal-pure : (a : A) → IsTotal {R = R} (pure a)
  unfolding ◌>>=◌
  IsTotal-pure a = record { returns = λ w. (a, refl) }

  pub IsTotal-gets : (f : World R → A) → IsTotal (gets f)
  unfolding ◌>>=◌
  IsTotal-gets f = record { returns = λ w. (f w, refl) }

  pub IsTotal-if : (b : Bool) (m n : M R A) → IsTotal m → IsTotal n → IsTotal (if b then m else n)
  IsTotal-if true m n km kn = km
  IsTotal-if false m n km kn = kn

  IsTotal-recover :
      (h : Error → M R A) (r : Outcome A) (w : World R)
      → ((e : Error) → IsTotal (h e))
      → (a : A) × ((recover r h w).0 ≡ ok a)
  IsTotal-recover h (ok a) w k = (a, refl)
  IsTotal-recover h (threw e) w k = (k e).returns w

  -- whatever is tried
  pub IsTotal-try :
      (m : M R A) (h : Error → M R A) → ((e : Error) → IsTotal (h e)) → IsTotal (try_with m h)
  unfolding ◌>>=◌
  IsTotal-try m h k = record { returns = λ w. IsTotal-recover h (m w).0 (m w).1 k }

  recover_ok :
      (h : Error → M R A) (r : Outcome A) (w : World R) (a : A) → r ≡ ok a → recover r h w ≡ (r, w)
  recover_ok h (ok b) w a q = refl
  recover_ok h (threw e) w a q = ground arith

  -- Nothing is caught of a handler that never throws.
  pub try_with-IsTotal :
      (m : M R A) (h : Error → M R A) → IsTotal m → (w : World R) → try_with m h w ≡ m w
  unfolding ◌>>=◌
  try_with-IsTotal m h k w = let (a, q) = k.returns w in recover_ok h (m w).0 (m w).1 a q

module _ {R : Redis} {A B : Type 0} where
  IsTotal-continue :
      (f : A → M R B) (r : Outcome A) (w : World R) (a : A)
      → r ≡ ok a
      → ((a : A) → IsTotal (f a))
      → (b : B) × ((continue r f w).0 ≡ ok b)
  IsTotal-continue f (ok c) w a q k = (k c).returns w
  IsTotal-continue f (threw e) w a q k = ground arith

  pub IsTotal-bind :
      (m : M R A) (f : A → M R B) → IsTotal m → ((a : A) → IsTotal (f a)) → IsTotal (m >>= f)
  unfolding ◌>>=◌
  IsTotal-bind m f km kf = record {
    returns = λ w. let (a, q) = km.returns w in IsTotal-continue f (m w).0 (m w).1 a q kf;
  }

pub ruleset total_rules = (IsTotal-pure, IsTotal-gets, IsTotal-if, IsTotal-try, IsTotal-bind)
