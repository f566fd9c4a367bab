-- ===== src/World/Monad/Keeps.antt =====
-- Invariants of handlers: one rule for each way to build a handler.
use wince_backend.Prelude.{
  ℕ, suc, Bool-cases, inl, inr, List, [], ◌∷◌, ◌++◌, Bool, true, false, if◌then◌else◌,
}
use wince_backend.Redis.{Redis}
use wince_backend.World.{World, Message}
use wince_backend.World.Monad.{
  M, Error, Outcome, ok, threw, pure, throw, gets, recover, try_with, redis_call, db_call, send,
  modify, random_uuid, continue, ◌>>=◌,
}

-- `m` keeps `P`, whether it returns or throws.
pub record Keeps {R : Redis} {A : Type 0} (P : World R → Type 0) (m : M R A) : Type 0 where
  pub at : (w : World R) → P w → P (m w).1

-- `P` says nothing of the connections to Redis, the database and Kafka, nor of the random source.
pub record IsBlind {R : Redis} (P : World R → Type 0) : Type 0 where
  pub store_blind :
      (w : World R) (s : R.Store) (n : ℕ) → P w → P (record w { store = s; redis_calls = n })
  pub redis_blind : (w : World R) (n : ℕ) → P w → P (record w { redis_calls = n })
  pub db_blind : (w : World R) (n : ℕ) → P w → P (record w { db_calls = n })
  pub kafka_blind : (w : World R) (n : ℕ) → P w → P (record w { kafka_calls = n })
  pub messages_blind :
      (w : World R) (l : List Message) (n : ℕ)
      → P w
      → P (record w { messages = l; kafka_calls = n })
  pub uuid_blind : (w : World R) (n : ℕ) → P w → P (record w { drawn = n })

module _ {R : Redis} {A : Type 0} {P : World R → Type 0} where
  pub Keeps-pure : (a : A) → Keeps P (pure a)
  unfolding pure
  Keeps-pure a = record { at = λ w h. h }

  pub Keeps-throw : (e : Error) → Keeps P (throw {A = A} e)
  unfolding throw
  Keeps-throw e = record { at = λ w h. h }

  pub Keeps-gets : (f : World R → A) → Keeps P (gets f)
  unfolding gets
  Keeps-gets f = record { at = λ w h. h }

  Keeps-recover :
      (h : Error → M R A) (r : Outcome A) (w : World R)
      → ((e : Error) → Keeps P (h e))
      → P w
      → P (recover r h w).1
  Keeps-recover h (ok a) w kh p = p
  Keeps-recover h (threw e) w kh p = (kh e).at w p

  pub Keeps-try :
      (m : M R A) (h : Error → M R A)
      → Keeps P m
      → ((e : Error) → Keeps P (h e))
      → Keeps P (try_with m h)
  unfolding try_with
  Keeps-try m h km kh = record {
    at = λ w p. let (r, w') = m w in Keeps-recover h r w' kh (km.at w p);
  }

  pub Keeps-if : (b : Bool) (m n : M R A) → Keeps P m → Keeps P n → Keeps P (if b then m else n)
  Keeps-if true m n km kn = km
  Keeps-if false m n km kn = kn

  pub Keeps-redis : (f : ℕ → R.Store → A × R.Store) → IsBlind P → Keeps P (redis_call f)
  unfolding redis_call
  Keeps-redis f blind = record {
    at = λ w p. elim (Bool-cases (w.redis_up w.redis_calls)) [
      | inl up ↦ rw up (blind.store_blind w (f w.now w.store).1 (suc w.redis_calls) p)
      | inr down ↦ rw down (blind.redis_blind w (suc w.redis_calls) p)
    ];
  }

  -- A statement that keeps `P` on the rows.
  pub Keeps-db :
      (f : World R → A × World R)
      → IsBlind P
      → ((w : World R) → P w → P (f w).1)
      → Keeps P (db_call f)
  unfolding db_call
  Keeps-db f blind kf = record {
    at = λ w p. elim (Bool-cases (w.db_up w.db_calls)) [
      | inl up ↦ rw up (blind.db_blind (f w).1 (suc w.db_calls) (kf w p))
      | inr down ↦ rw down (blind.db_blind w (suc w.db_calls) p)
    ];
  }

module _ {R : Redis} {P : World R → Type 0} where
  pub Keeps-send : (m : Message) → IsBlind P → Keeps P (send m)
  unfolding send
  Keeps-send m blind = record {
    at = λ w p. elim (Bool-cases (w.kafka_up w.kafka_calls)) [
      | inl up ↦ rw up (blind.messages_blind w (w.messages ++ m ∷ []) (suc w.kafka_calls) p)
      | inr down ↦ rw down (blind.kafka_blind w (suc w.kafka_calls) p)
    ];
  }

  pub Keeps-modify : (f : World R → World R) → ((w : World R) → P w → P (f w)) → Keeps P (modify f)
  unfolding modify
  Keeps-modify f kf = record { at = kf }

  pub Keeps-uuid : IsBlind P → Keeps P random_uuid
  unfolding random_uuid
  Keeps-uuid blind = record { at = λ w p. blind.uuid_blind w (suc w.drawn) p }

module _ {R : Redis} {A B : Type 0} {P : World R → Type 0} where
  Keeps-continue :
      (f : A → M R B) (r : Outcome A) (w : World R)
      → ((a : A) → Keeps P (f a))
      → P w
      → P (continue r f w).1
  Keeps-continue f (ok a) w kf p = (kf a).at w p
  Keeps-continue f (threw e) w kf p = p

  pub Keeps-bind :
      (m : M R A) (f : A → M R B) → Keeps P m → ((a : A) → Keeps P (f a)) → Keeps P (m >>= f)
  unfolding ◌>>=◌
  Keeps-bind m f km kf = record {
    at = λ w p. let (r, w') = m w in Keeps-continue f r w' kf (km.at w p);
  }

pub ruleset keeps_rules = (
  Keeps-pure, Keeps-throw, Keeps-gets, Keeps-try, Keeps-if, Keeps-redis, Keeps-db, Keeps-send,
  Keeps-modify, Keeps-uuid, Keeps-bind,
)

-- `m` leads from `P` to `Q`, whether it returns or throws.
pub record Leads {R : Redis} {A : Type 0} (P Q : World R → Type 0) (m : M R A) : Type 0 where
  pub at : (w : World R) → P w → Q (m w).1

module _ {R : Redis} {A : Type 0} {P Q : World R → Type 0} where
  pub Leads-weaken : (m : M R A) → ((w : World R) → P w → Q w) → Keeps P m → Leads P Q m
  Leads-weaken m i k = record { at = λ w p. i (m w).1 (k.at w p) }

  pub Leads-try :
      (m : M R A) (h : Error → M R A)
      → Leads P Q m
      → ((e : Error) → Keeps Q (h e))
      → Leads P Q (try_with m h)
  unfolding try_with
  Leads-try m h km kh = record {
    at = λ w p. let (r, w') = m w in Keeps-recover h r w' kh (km.at w p);
  }

  pub Leads-if :
      (b : Bool) (m n : M R A) → Leads P Q m → Leads P Q n → Leads P Q (if b then m else n)
  Leads-if true m n km kn = km
  Leads-if false m n km kn = kn

module _ {R : Redis} {A B : Type 0} {Q S : World R → Type 0} where
  Leads-continue :
      (f : A → M R B) (r : Outcome A) (w : World R)
      → ((a : A) → Leads Q S (f a))
      → ((w : World R) → Q w → S w)
      → Q w
      → S (continue r f w).1
  Leads-continue f (ok a) w kf i q = (kf a).at w q
  Leads-continue f (threw e) w kf i q = i w q

module _ {R : Redis} {A B : Type 0} {P Q S : World R → Type 0} where
  -- What holds after the first part must do if it throws.
  pub Leads-bind :
      (m : M R A) (f : A → M R B)
      → Leads P Q m
      → ((a : A) → Leads Q S (f a))
      → ((w : World R) → Q w → S w)
      → Leads P S (m >>= f)
  unfolding ◌>>=◌
  Leads-bind m f km kf i = record {
    at = λ w p. let (r, w') = m w in Leads-continue f r w' kf i (km.at w p);
  }
