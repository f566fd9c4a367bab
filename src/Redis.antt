-- ===== src/Redis.antt =====
-- The Redis server, which the decision engine calls through packages/redis_client: its keys, its
-- values, and the documented behaviour of the commands that the services and their Lua scripts
-- issue. The server is a parameter of every model.
pub mod Memory
use Prim.Native.String.{String}
use text.Mathlib.Text.{◌==◌ as str_eq}
use text.Mathlib.TextEquality.{eq_iff}
use wince_backend.Prelude.{
  ℕ, ◌+◌, ◌*◌, ◌≤◌, ◌≡◌, refl, arith, ℤ, int_eq, int_eq_refl, Bool, true, false, not, ◌&&◌, Option,
  none, some, is_some, List, [], filter, ltb, leb, ◌==◌, if◌then◌else◌,
}
use wince_backend.Types.{InShopPayload}

-- One constructor for each template of key, `lock:user:${userId}` and so on.
pub data Key : Type 0 where
  lock_user : ℤ → Key
  sent_user : ℤ → Key
  cooldown : ℕ → ℤ → Key
  budget : ℕ → ℕ → Key
  risk_user : ℤ → Key
  eval_queue : Key
  active_risk : ℕ → Key
  user_sessions : ℤ → Key
  pending_store : ℕ → Key
  scan_lock : Key
  expiry_scan_lock : Key
  active_sessions : Key
  ws_active intervention_pending : String → Key

abbrev pub key_eq : Key → Key → Bool
key_eq (lock_user a) (lock_user b) = int_eq a b
key_eq (sent_user a) (sent_user b) = int_eq a b
key_eq (cooldown a b) (cooldown c d) = a == c && int_eq b d
key_eq (budget a b) (budget c d) = a == c && b == d
key_eq (risk_user a) (risk_user b) = int_eq a b
key_eq eval_queue eval_queue = true
key_eq (active_risk a) (active_risk b) = a == b
key_eq (user_sessions a) (user_sessions b) = int_eq a b
key_eq (pending_store a) (pending_store b) = a == b
key_eq scan_lock scan_lock = true
key_eq expiry_scan_lock expiry_scan_lock = true
key_eq active_sessions active_sessions = true
key_eq (ws_active a) (ws_active b) = str_eq a b
key_eq (intervention_pending a) (intervention_pending b) = str_eq a b
key_eq _ _ = false

pub key_eq_refl : (k : Key) → key_eq k k ≡ true
key_eq_refl (lock_user a) = int_eq_refl a
key_eq_refl (sent_user a) = int_eq_refl a
key_eq_refl (cooldown a b) = ground (arith, int_eq_refl b)
key_eq_refl (budget a b) = ground arith
key_eq_refl (risk_user a) = int_eq_refl a
key_eq_refl eval_queue = refl
key_eq_refl (active_risk a) = ground arith
key_eq_refl (user_sessions a) = int_eq_refl a
key_eq_refl (pending_store a) = ground arith
key_eq_refl scan_lock = refl
key_eq_refl expiry_scan_lock = refl
key_eq_refl active_sessions = refl
key_eq_refl (ws_active a) = (eq_iff a a).1 refl
key_eq_refl (intervention_pending a) = (eq_iff a a).1 refl

-- A random UUID, the marker `'1'`, a decimal number, the address of a pod, or a payload as JSON.
pub data Value : Type 0 where
  uuid : ℕ → Value
  flag : Value
  amount : ℕ → Value
  address : String → Value
  json : InShopPayload → Value

-- A reply against a token, which is never a payload.
abbrev pub value_eq : Value → Value → Bool
value_eq (uuid a) (uuid b) = a == b
value_eq flag flag = true
value_eq (amount a) (amount b) = a == b
value_eq (address a) (address b) = str_eq a b
value_eq _ _ = false

-- `tonumber(reply) or 0`
abbrev pub number_or_zero : Option Value → ℕ
number_or_zero (some (amount n)) = n
number_or_zero _ = 0

-- An entry of a sorted set: its score and its member.
abbrev pub Entry : Type 0
Entry = record { score : ℕ; member : String }

abbrev pub in_range : ℕ → ℕ → Entry → Bool
in_range lo hi e = leb lo e.score && leb e.score hi

abbrev pub is_member : String → Entry → Bool
is_member m e = str_eq m e.member

-- Times are in milliseconds, time-to-live in seconds. `get now k s` is what GET replies at `now`.
pub record Redis : Type 1 where
  pub Store : Type 0
  pub get : ℕ → Key → Store → Option Value
  pub setex : ℕ → Key → ℕ → Value → Store → Store
  pub expire : ℕ → Key → ℕ → Store → Store
  pub del : Key → Store → Store
  pub incr_by : ℕ → Key → ℕ → Store → Store
  pub zset : Key → Store → List Entry
  pub zadd : Key → ℕ → String → Store → Store
  pub zrem_range : Key → ℕ → ℕ → Store → Store
  pub zrem : Key → String → Store → Store
  -- SETEX, and SET with EX: visible for the time-to-live, and no other key is touched.
  pub get-setex :
      (now t : ℕ) (k j : Key) (ttl : ℕ) (v : Value) (s : Store)
      → now ≤ t
      → get t j (setex now k ttl v s)
        ≡ (if key_eq k j then (if ltb t (now + ttl * 1000) then some v else none) else get t j s)
  -- EXPIRE gives a live key a new time-to-live.
  pub get-expire :
      (now t : ℕ) (k j : Key) (ttl : ℕ) (s : Store)
      → now ≤ t
      → get t j (expire now k ttl s) ≡ (
          if key_eq k j
          then (if ltb t (now + ttl * 1000) then get now k s else none)
          else get t j s)
  pub get-del :
      (t : ℕ) (k j : Key) (s : Store) → get t j (del k s) ≡ (if key_eq k j then none else get t j s)
  -- INCRBYFLOAT of a live key keeps its time-to-live.
  pub get-incr_by :
      (now t : ℕ) (k j : Key) (x : ℕ) (s : Store)
      → now ≤ t
      → is_some (get now k s) ≡ true
      → get t j (incr_by now k x s) ≡ (
          if key_eq k j
          then (if is_some (get t k s)
              then some (amount (number_or_zero (get now k s) + x))
              else none)
          else get t j s)
  -- A key that has expired does not come back by itself.
  pub get_expired : (t t' : ℕ) (k : Key) (s : Store) → t ≤ t' → get t k s ≡ none → get t' k s ≡ none
  pub zset-zrem_range :
      (k j : Key) (lo hi : ℕ) (s : Store)
      → zset j (zrem_range k lo hi s)
        ≡ (if key_eq k j then filter (λ e. not (in_range lo hi e)) (zset k s) else zset j s)
  pub zset-zrem :
      (k j : Key) (m : String) (s : Store)
      → zset j (zrem k m s)
        ≡ (if key_eq k j then filter (λ e. not (is_member m e)) (zset k s) else zset j s)
  -- ZREM changes no other key.
  pub get-zrem :
      (t : ℕ) (k j : Key) (m : String) (s : Store)
      → key_eq k j ≡ false
      → get t j (zrem k m s) ≡ get t j s
  pub zset-del : (k j : Key) (s : Store) → zset j (del k s) ≡ (if key_eq k j then [] else zset j s)
