-- ===== src/Experiment/Tests.antt =====
-- Customer 5 in an experiment with two halves: the bucket by FNV-1a of the text 5:7 is 95.
use wince_backend.Prelude.{◌<◌, ◌≡◌, refl, pos, some, [], ◌∷◌}
use wince_backend.Experiment.{
  ExperimentConfig, loaded, bucket_of, bucket_key, fnv1a, choose, get_variant,
}
use wince_backend.Experiment.Shares.{IsAssigned, get_variant-IsAssigned}

abbrev config : ExperimentConfig
config = record {
  id = 7;
  name = "colours";
  variants = record { name = "red"; weight = 50 } ∷ record { name = "blue"; weight = 50 } ∷ [];
}

key_codes : bucket_key (pos 105) 7 ≡ 49 ∷ 48 ∷ 53 ∷ 58 ∷ 55 ∷ []
key_codes = refl

get_variant-IsAssigned_example :
    (bucket_of (pos 5) config < 100)
    × IsAssigned
        (bucket_of (pos 5) config)
        0
        config.variants
        (get_variant (pos 5) (loaded (some config)))
get_variant-IsAssigned_example = get_variant-IsAssigned (pos 5) config

hash_5 : fnv1a (bucket_key (pos 5) 7) ≡ 3266417995
unfolding fnv1a
hash_5 = refl

variant_5 : get_variant (pos 5) (loaded (some config)) ≡ "blue"
unfolding get_variant choose fnv1a
variant_5 = refl
