-- ===== src/Experiment.antt =====
-- apps/decision-engine/src/services/experiment.service.ts: the variant of an experiment that a
-- customer of a store is in. What the cache answers for the experiment of the store is an argument.
pub mod Shares
mod Tests
use Prim.Native.Nat.{bit_xor}
use Prim.Native.String.{String}
use wince_backend.Prelude.{
  ℕ, zero, suc, ◌+◌, ◌*◌, ◌/◌, ◌%◌, ◌^◌, ℤ, pos, negsuc, Option, none, some, List, [], ◌∷◌, ◌++◌,
  ltb, if◌then◌else◌,
}

pub record ExperimentVariant : Type 0 where
  pub name : String
  pub weight : ℕ

pub record ExperimentConfig : Type 0 where
  pub id : ℕ
  pub name : String
  pub variants : List ExperimentVariant

pub data Loaded : Type 0 where
  load_failed : Loaded
  loaded : Option ExperimentConfig → Loaded

-- The character codes of a number before `rest`; an integer of JavaScript has at most 16 digits.
abbrev pub digit_codes : (fuel : ℕ) → ℕ → List ℕ → List ℕ
digit_codes zero n rest = rest
digit_codes (suc fuel) n rest =
    let more = digit_codes fuel (n / 10) ((48 + n % 10) ∷ rest) in
    if ltb n 10 then (48 + n) ∷ rest else more

abbrev integer_codes : ℤ → List ℕ → List ℕ
integer_codes (pos n) rest = digit_codes 16 n rest
integer_codes (negsuc n) rest = 45 ∷ digit_codes 16 (suc n) rest

-- the text `${customerId}:${config.id}`
abbrev pub bucket_key : ℤ → ℕ → List ℕ
bucket_key customer_id id = integer_codes customer_id (58 ∷ digit_codes 16 id [])

abbrev pub fnv1a_from : ℕ → List ℕ → ℕ
fnv1a_from hash [] = hash
fnv1a_from hash (c ∷ cs) = fnv1a_from ((bit_xor hash c * 16777619) % 2 ^ 32) cs

pub fnv1a : List ℕ → ℕ
fnv1a = fnv1a_from 2166136261

abbrev pub bucket_of : ℤ → ExperimentConfig → ℕ
bucket_of customer_id config = fnv1a (bucket_key customer_id config.id) % 100

-- the loop over the variants
pub choose : (bucket cumulative : ℕ) → List ExperimentVariant → String
choose bucket cumulative [] = "control"
choose bucket cumulative (v ∷ vs) =
    let rest = choose bucket (cumulative + v.weight) vs in
    if ltb bucket (cumulative + v.weight) then v.name else rest

pub get_variant : ℤ → Loaded → String
get_variant customer_id load_failed = "control"
get_variant customer_id (loaded none) = "control"
get_variant customer_id (loaded (some config)) =
    choose (bucket_of customer_id config) 0 config.variants
