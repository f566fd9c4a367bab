-- ===== src/World/Monad.antt =====
-- Handlers of apps/decision-engine as a state and exception monad over `World`. What was written
-- before a throw stays written.
pub mod Keeps
pub mod Returns
pub mod Total
pub mod Throws
use wince_backend.Prelude.{ℕ, suc, List, [], ◌∷◌, ◌++◌, if◌then◌else◌}
use wince_backend.Redis.{Redis}
use wince_backend.World.{World, Message}

pub data Error : Type 0 where
  redis_error db_error kafka_error : Error
  -- a TypeError of the language
  type_error : Error

pub data Outcome (A : Type 0) : Type 0 where
  ok : A → Outcome A
  threw : Error → Outcome A

abbrev pub M : Redis → Type 0 → Type 0
M R A = World R → Outcome A × World R

module _ {R : Redis} {A : Type 0} where
  pub pure : A → M R A
  pure a w = (ok a, w)

  pub throw : Error → M R A
  throw e w = (threw e, w)

  pub gets : (World R → A) → M R A
  gets f w = (ok (f w), w)

  abbrev pub recover : Outcome A → (Error → M R A) → M R A
  recover (ok a) h w = (ok a, w)
  recover (threw e) h w = h e w

  -- `try { m } catch (e) { h }`
  pub try_with : M R A → (Error → M R A) → M R A
  try_with m h w = let (r, w') = m w in recover r h w'

  abbrev pub try_catch : M R A → M R A → M R A
  try_catch m h = try_with m (λ _. h)

  -- One command or one Lua script, which Redis runs atomically at the time `now`.
  pub redis_call : (ℕ → R.Store → A × R.Store) → M R A
  redis_call f w =
      if w.redis_up w.redis_calls
      then (let (a, s) = f w.now w.store in
          (ok a, record w { store = s; redis_calls = suc w.redis_calls }))
      else (threw redis_error, record w { redis_calls = suc w.redis_calls })

  -- One SQL statement.
  pub db_call : (World R → A × World R) → M R A
  db_call f w =
      if w.db_up w.db_calls
      then (let (a, w') = f w in (ok a, record w' { db_calls = suc w.db_calls }))
      else (threw db_error, record w { db_calls = suc w.db_calls })

module _ {R : Redis} where
  -- One message, at the end of its topic.
  pub send : Message → M R (Unit {0})
  send m w =
      if w.kafka_up w.kafka_calls
      then (ok tt, record w { messages = w.messages ++ m ∷ []; kafka_calls = suc w.kafka_calls })
      else (threw kafka_error, record w { kafka_calls = suc w.kafka_calls })

  pub modify : (World R → World R) → M R (Unit {0})
  modify f w = (ok tt, f w)

  pub random_uuid : M R ℕ
  random_uuid w = (ok (w.uuids w.drawn), record w { drawn = suc w.drawn })

module _ {R : Redis} {A B : Type 0} where
  abbrev pub continue : Outcome A → (A → M R B) → M R B
  continue (ok a) f w = f a w
  continue (threw e) f w = (threw e, w)

  infixl 5 ◌>>=◌ ◌>>◌
  -- Opening this opens the other actions too.
  unfoldable pub ◌>>=◌ : M R A → (A → M R B) → M R B
  unfolding pure throw gets try_with redis_call db_call send modify random_uuid
  ◌>>=◌ m f w = let (r, w') = m w in continue r f w'

  abbrev pub ◌>>◌ : M R A → M R B → M R B
  m >> n = m >>= λ _. n
