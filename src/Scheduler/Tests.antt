-- ===== src/Scheduler/Tests.antt =====
-- A queue with one session that is due and one that is not.
use Prim.Native.String.{String}
use wince_backend.Prelude.{ℤ, pos, ◌≡◌, refl, not, none, [], map, filter, take}
use wince_backend.Redis.{eval_queue, in_range, user_sessions, risk_user}
use wince_backend.Redis.Memory.{memory, empty}
use wince_backend.World.{World}
use wince_backend.World.Monad.{ok}
use wince_backend.Scheduler.{pop_due, pop_limit, clear_user_sessions}
use wince_backend.Scheduler.Due.{queue, due, is_one_of, pop_due_lem, clear_user_sessions_lem}
use wince_backend.Fixture.{world}

abbrev waiting : World memory
waiting = record world {
  store =
      memory.zadd (user_sessions (pos 42)) 0 "s1"
        (memory.zadd eval_queue 9000 "s2" (memory.zadd eval_queue 1500 "s1" empty));
}

pop_due_lem_example :
    ((pop_due memory waiting).0 ≡ ok (map (λ e. e.member) (take pop_limit (due memory waiting))))
    × (queue memory (pop_due memory waiting).1
        ≡ filter (λ e. not (in_range 0 waiting.now e)) (queue memory waiting))
pop_due_lem_example = pop_due_lem memory waiting refl refl

abbrev show_id : ℤ → String
show_id _ = "42"

clear_user_sessions_lem_example :
    let w' = (clear_user_sessions memory show_id (pos 42) 1 waiting).1 in
    let sids = map (λ e. e.member) (memory.zset (user_sessions (pos 42)) waiting.store) in
    (queue memory w' ≡ filter (λ e. not (is_one_of memory sids e)) (queue memory waiting))
    × (memory.get waiting.now (risk_user (pos 42)) w'.store ≡ none)
    × (memory.zset (user_sessions (pos 42)) w'.store ≡ [])
clear_user_sessions_lem_example =
    clear_user_sessions_lem memory show_id waiting (pos 42) 1 refl refl
