-- ===== src/Cache/Memory/Tests.antt =====
-- Two writes to a table of one entry: the first is evicted, and stays in the estimate.
use wince_backend.Prelude.{◌+◌, ◌*◌, ◌<◌, ◌≡◌, ◌⊎◌, refl, true, is_some, none, List, [], ◌∷◌}
use wince_backend.Cache.Value.{number}
use wince_backend.Cache.Tracker.{
  lookup, calculate_object_size, calculate_memory_info, track_entry, insert,
}
use wince_backend.Cache.Memory.{MemoryCache, do_set, entry_of, check_memory_limits, projected_usage}
use wince_backend.Cache.Memory.One.{one_entry, plain, config}
use wince_backend.Cache.Memory.Tracked.{Op, set, apply, apply_all, IsTracked, apply_all-IsTracked}
use wince_backend.Cache.Memory.Limits.{limit, overlooked, do_set-limit}

abbrev Cached : Type 0
Cached = MemoryCache one_entry plain config 1000

abbrev nothing : Cached
nothing = record {
  table = none;
  tracker = record { memory_map = []; total_memory_usage = 0; operation_count = 0 };
}

nothing-IsTracked : IsTracked one_entry plain config 1000 nothing
nothing-IsTracked = record { balanced = refl; tracked = λ k e h. cc h }

abbrev two_writes : List Op
two_writes = set "a" (number 1 true) 60 ∷ set "b" (number 2 true) 60 ∷ []

apply_all-IsTracked_example :
    IsTracked one_entry plain config 1000 (apply_all one_entry plain config 1000 two_writes nothing)
apply_all-IsTracked_example =
    apply_all-IsTracked one_entry plain config 1000 two_writes nothing nothing-IsTracked

evicted_is_tracked :
    is_some
      (lookup "a" (apply_all one_entry plain config 1000 two_writes nothing).tracker.memory_map)
    ≡ true
unfolding apply_all apply do_set entry_of check_memory_limits projected_usage track_entry
    calculate_memory_info calculate_object_size insert lookup
evicted_is_tracked = refl

do_set-limit_example :
    let m = do_set one_entry plain config 1000 "a" (number 1 true) 60 nothing in
    (m.tracker ≡ nothing.tracker)
    ⊎ (m.tracker.total_memory_usage * 100
        < limit one_entry plain config 1000
          + overlooked one_entry plain config 1000
              (entry_of one_entry plain config 1000 (number 1 true) 60)
            * 100)
do_set-limit_example = do_set-limit one_entry plain config 1000 "a" (number 1 true) 60 nothing
