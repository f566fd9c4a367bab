-- ===== src/Experiment/Shares.antt =====
-- Which of the 100 buckets of experiment.service.ts a variant gets.
use Prim.Native.String.{String}
use wince_backend.Prelude.{
  ℕ, ◌+◌, ◌≤◌, ◌<◌, ◌≡◌, ◌⊎◌, inl, inr, refl, ap, arith, ℤ, true, some, List, [], ◌∷◌, ◌++◌, ltb,
  Bool-cases,
}
use wince_backend.Experiment.{
  ExperimentVariant, ExperimentConfig, loaded, bucket_of, choose, get_variant,
}

abbrev pub total : List ExperimentVariant → ℕ
total [] = 0
total (v ∷ vs) = v.weight + total vs

-- The bucket is in the interval of the weight of one of the variants, which has the name, ...
pub record InInterval (bucket start : ℕ) (vs : List ExperimentVariant) (name : String)
    : Type 0 where
  pub before : List ExperimentVariant
  pub variant : ExperimentVariant
  pub after : List ExperimentVariant
  pub split : vs ≡ before ++ variant ∷ after
  pub above : start + total before ≤ bucket
  pub below : bucket < start + total before + variant.weight
  pub named : name ≡ variant.name

-- ... or past all of them.
abbrev pub IsAssigned : (bucket start : ℕ) → List ExperimentVariant → String → Type 0
IsAssigned bucket start vs name =
    InInterval bucket start vs name ⊎ ((start + total vs ≤ bucket) × (name ≡ "control"))

here :
    (bucket start : ℕ) (v : ExperimentVariant) (vs : List ExperimentVariant)
    → start ≤ bucket
    → ltb bucket (start + v.weight) ≡ true
    → InInterval bucket start (v ∷ vs) v.name
here bucket start v vs l q = record {
  before = [];
  variant = v;
  after = vs;
  split = refl;
  above = ground (arith, l);
  below = ground (arith, q);
  named = refl;
}

there :
    (bucket start : ℕ) (v : ExperimentVariant) (vs : List ExperimentVariant) (name : String)
    → IsAssigned bucket (start + v.weight) vs name
    → IsAssigned bucket start (v ∷ vs) name
there bucket start v vs name (inl a) = inl (record {
  before = v ∷ a.before;
  variant = a.variant;
  after = a.after;
  split = ap (λ l. v ∷ l) a.split;
  above = omega (arith, a.above);
  below = omega (arith, a.below);
  named = a.named;
})
there bucket start v vs name (inr (l, e)) = inr (omega (arith, l), e)

choose-IsAssigned :
    (bucket start : ℕ) (vs : List ExperimentVariant)
    → start ≤ bucket
    → IsAssigned bucket start vs (choose bucket start vs)
unfolding choose
choose-IsAssigned bucket start [] l = inr (omega arith, refl)
choose-IsAssigned bucket start (v ∷ vs) l = elim (Bool-cases (ltb bucket (start + v.weight))) [
  | inl q ↦ rw q (inl (here bucket start v vs l q))
  | inr q ↦ rw q (
      there bucket start v vs _
        (choose-IsAssigned bucket (start + v.weight) vs (ground (arith, q))))
]

-- The variant of a customer in an experiment is by a bucket below 100: the one in whose interval of
-- cumulative weights the bucket is, or control where the bucket is past them all.
pub get_variant-IsAssigned :
    (customer_id : ℤ) (config : ExperimentConfig)
    → let bucket = bucket_of customer_id config in
      (bucket < 100)
      × IsAssigned bucket 0 config.variants (get_variant customer_id (loaded (some config)))
unfolding get_variant
get_variant-IsAssigned customer_id config =
    (omega arith, choose-IsAssigned (bucket_of customer_id config) 0 config.variants (omega arith))
