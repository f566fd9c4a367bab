-- ===== src/Expiry/Tests.antt =====
-- An offer that is due and pending, which a scan expires.
use Prim.Native.String.{String}
use wince_backend.Prelude.{ℕ, ◌≡◌, refl, some, [], ◌∷◌, ◌==◌, if◌then◌else◌, List}
use wince_backend.Redis.{pending_store}
use wince_backend.Redis.Memory.{memory}
use wince_backend.World.{World, expired}
use wince_backend.World.Monad.{ok, ◌>>=◌}
use wince_backend.Expiry.{
  expire_one, expire_all, due_in, expire_stores, scan_expired, acquire_expiry_lock,
  expire_recommendations,
}
use wince_backend.Expiry.Pending.{OnlyExpires, expire_recommendations-OnlyExpires}
use wince_backend.Fixture.{world, offer}

abbrev late : World memory
late = record world { now = 700000; store = memory.zadd (pending_store 1) 600000 "u7" world.store }

abbrev show : ℕ → String
show id = if id == 7 then "u7" else "other"

abbrev stores : memory.Store → List ℕ
stores s = 1 ∷ []

expire_recommendations-OnlyExpires_example :
    let (r, w) = expire_recommendations memory show stores late in
    (r ≡ ok tt) × ((j : ℕ) → OnlyExpires (late.recommendations j) (w.recommendations j))
expire_recommendations-OnlyExpires_example =
    expire_recommendations-OnlyExpires memory show stores late

expires_offer :
    (expire_recommendations memory show stores late).1.recommendations 7
    ≡ some (record offer { status = expired })
unfolding expire_recommendations acquire_expiry_lock scan_expired expire_stores due_in expire_all
    expire_one ◌>>=◌
expires_offer = refl

empties_mirror :
    memory.zset (pending_store 1) (expire_recommendations memory show stores late).1.store ≡ []
unfolding expire_recommendations acquire_expiry_lock scan_expired expire_stores due_in expire_all
    expire_one ◌>>=◌
empties_mirror = refl
