-- ===== src/Cache/Tests.antt =====
-- A cache of one memory level: a computed value, and reads after a write and an invalidation.
use wince_backend.Prelude.{◌≡◌, refl, true, none, some, List, [], ◌∷◌, All, Option}
use wince_backend.Cache.Value.{JsValue, number}
use wince_backend.Cache.{
  Slot, Config, value, returned, get_or_compute, get, get_from, set, set_in, invalidate,
  invalidate_in,
}
use wince_backend.Cache.Tracker.{calculate_object_size}
use wince_backend.Cache.Memory.{
  MemoryCache, do_set, do_get, do_invalidate, entry_of, check_memory_limits, projected_usage,
}
use wince_backend.Cache.Memory.One.{one_entry, plain}
use wince_backend.Cache.Memory.One
use wince_backend.Cache.Memory.Levels.{memory_level}
use wince_backend.Cache.Coherent.{Holds, get_or_compute-returned}
use wince_backend.Cache.Latest.{
  Op, read, write, drop, answers, spec_answers, Forgets, AllGoThrough, answers-Forgets,
}

abbrev empty_memory : MemoryCache one_entry plain One.config 1000
empty_memory = record {
  table = none;
  tracker = record { memory_map = []; total_memory_usage = 0; operation_count = 0 };
}

empty_slot : Slot
unfolding memory_level
empty_slot = record { level = memory_level one_entry plain One.config 1000; store = empty_memory }

abbrev config : Config
config = record { default_ttl = 300; min_ttl = 60; max_ttl = 3600 }

get_or_compute-returned_example :
    let (r, cs) = get_or_compute config "policy:1" (value (number 7 true)) 300 (empty_slot ∷ []) in
    (r ≡ returned (number 7 true)) × All (Holds "policy:1" (number 7 true)) cs
unfolding empty_slot memory_level
get_or_compute-returned_example =
    get_or_compute-returned "policy:1" (number 7 true) config 300 (empty_slot ∷ []) refl
      ((λ w e. cc e), tt)

abbrev ops : List Op
ops = write "a" (number 1 true) 60 ∷ read "a" ∷ drop "a" ∷ read "a" ∷ []

go_through : AllGoThrough config ops (empty_slot ∷ [])
unfolding empty_slot memory_level set set_in invalidate invalidate_in get get_from do_set do_get
    entry_of check_memory_limits projected_usage calculate_object_size
go_through = (((refl, refl), tt), (tt, (((refl, refl), tt), (tt, tt))))

answers-Forgets_example :
    Forgets (answers config ops (empty_slot ∷ [])) (spec_answers ops (λ k. none))
unfolding empty_slot memory_level
answers-Forgets_example =
    answers-Forgets config ops (λ k. none) (empty_slot ∷ []) ((λ k w e. cc e), tt) go_through

abbrev expected : List (Option JsValue)
expected = none ∷ some (number 1 true) ∷ none ∷ none ∷ []

runs : answers config ops (empty_slot ∷ []) ≡ expected
unfolding empty_slot memory_level answers set set_in invalidate invalidate_in get get_from do_set
    do_get do_invalidate entry_of check_memory_limits projected_usage calculate_object_size
runs = refl
