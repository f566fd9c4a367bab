-- ===== src/ConnectionPool/Lists.antt =====
-- The list of connections of ConnectionPoolManager.ts under the writes of its handlers.
use wince_backend.Prelude.{
  ℕ, suc, ◌≡◌, refl, arith, Bool, true, false, not, ◌&&◌, some, List, [], ◌∷◌, ◌++◌, any, length,
  ◌==◌, if◌then◌else◌,
}
use wince_backend.ConnectionPool.{
  Connection, has_id, find_available, change, check_out, mark_unhealthy, remove_first,
}

abbrev pub is_idle : ℕ → Connection → Bool
is_idle k c = has_id k c && not c.checked_out

-- a connection with the identity that is not checked out
abbrev pub has_idle : ℕ → List Connection → Bool
has_idle k l = any (is_idle k) l

abbrev pub has : ℕ → List Connection → Bool
has k l = any (has_id k) l

pub find_available-has_idle :
    (k : ℕ) (l : List Connection) → find_available l ≡ some k → has_idle k l ≡ true
unfolding find_available
find_available-has_idle k [] e = ground arith
find_available-has_idle k (c ∷ cs) e = ground (arith, find_available-has_idle k cs)

pub has_idle-has : (k : ℕ) (l : List Connection) → has_idle k l ≡ true → has k l ≡ true
has_idle-has k [] e = ground arith
has_idle-has k (c ∷ cs) e = ground (arith, has_idle-has k cs)

pub has_idle-check_out :
    (k now : ℕ) (l : List Connection) → has_idle k (change k (check_out now) l) ≡ false
unfolding change
has_idle-check_out k now [] = refl
has_idle-check_out k now (c ∷ cs) = ground (arith, has_idle-check_out k now cs)

pub has_idle-unhealthy :
    (j k : ℕ) (l : List Connection) → has_idle j (change k mark_unhealthy l) ≡ has_idle j l
unfolding change
has_idle-unhealthy j k [] = refl
has_idle-unhealthy j k (c ∷ cs) = ground (arith, has_idle-unhealthy j k cs)

module _ (j k : ℕ) (f : Connection → Connection) (keeps : (c : Connection) → (f c).id ≡ c.id) where
  pub has_idle-change :
      (l : List Connection) → (j == k) ≡ false → has_idle j (change k f l) ≡ has_idle j l
  unfolding change
  has_idle-change [] e = refl
  has_idle-change (c ∷ cs) e = ground (arith, keeps c, has_idle-change cs)

  pub has-change : (l : List Connection) → has j (change k f l) ≡ has j l
  unfolding change
  has-change [] = refl
  has-change (c ∷ cs) = ground (arith, keeps c, has-change cs)

  pub length-change : (l : List Connection) → length (change k f l) ≡ length l
  unfolding change
  length-change [] = refl
  length-change (c ∷ cs) = omega (arith, length-change cs)

pub has_idle-remove :
    (j k : ℕ) (l : List Connection) → has_idle j (remove_first k l) ≡ true → has_idle j l ≡ true
unfolding remove_first
has_idle-remove j k [] e = e
has_idle-remove j k (c ∷ cs) e = ground (arith, has_idle-remove j k cs)

pub has-remove :
    (j k : ℕ) (l : List Connection) → has j l ≡ false → has j (remove_first k l) ≡ false
unfolding remove_first
has-remove j k [] e = e
has-remove j k (c ∷ cs) e = ground (arith, has-remove j k cs)

pub length-remove :
    (k : ℕ) (l : List Connection) → has k l ≡ true → suc (length (remove_first k l)) ≡ length l
unfolding remove_first
length-remove k [] e = ground arith
length-remove k (c ∷ cs) e = ground (arith, length-remove k cs)

pub any-append :
    (p : Connection → Bool) (l : List Connection) (c : Connection)
    → any p (l ++ c ∷ []) ≡ (if any p l then true else p c)
any-append p [] c = ground arith
any-append p (d ∷ ds) c = ground (arith, any-append p ds c)
