-- ===== src/ConnectionPool/Holders.antt =====
-- Who has the connections of ConnectionPoolManager.ts, and what the writes to the pool leave of it.
use wince_backend.Prelude.{
  ℕ, suc, ◌+◌, ◌≤◌, ◌<◌, ◌≡◌, refl, arith, Bool, true, false, List, [], ◌∷◌, any, ◌==◌,
  if◌then◌else◌, Bool-cases, inl, inr, sym, ◌∙◌, ◌⊎◌, ==_iff, ap, subst,
}
use wince_backend.ConnectionPool.{
  remove_first, Connection, Pool, has_id, change, check_out, mark_available, mark_unhealthy,
  remove_connection_from_pool, new_connection, push_connection,
}
use wince_backend.ConnectionPool.Lists.{
  has, is_idle, has_idle, has_idle-check_out, has_idle-unhealthy, has_idle-change, has-change,
  has_idle-remove, has-remove, any-append,
}
use wince_backend.ConnectionPool.Runs.{holds, drop_holding, Holding}

-- How many clients have the connection.
unfoldable pub holders : ℕ → List Holding → ℕ
holders k [] = 0
holders k (h ∷ hs) = (if k == h.connection then 1 else 0) + holders k hs

-- No connection has two holders, none that is to come has one, and one that is not checked out in
-- the pool has none.
pub record IsExclusive (p : Pool) (held : List Holding) : Type 0 where
  pub held_once : (k : ℕ) → holders k held ≤ 1
  pub held_old : (k : ℕ) → p.next_id ≤ k → holders k held ≡ 0
  pub pool_old : (k : ℕ) → p.next_id ≤ k → has k p.pool ≡ false
  pub idle_free : (k : ℕ) → has_idle k p.pool ≡ true → holders k held ≡ 0

-- A part of a handler that changes no holder: it makes nothing idle, and takes no identity back.
pub record IsQuiet (p p' : Pool) : Type 0 where
  pub ids : p.next_id ≤ p'.next_id
  pub olds : (k : ℕ) → p'.next_id ≤ k → has k p.pool ≡ false → has k p'.pool ≡ false
  pub idles : (k : ℕ) → has_idle k p'.pool ≡ true → (has_idle k p.pool ≡ true) ⊎ (p.next_id ≤ k)

pub quiet-IsExclusive :
    (p p' : Pool) (held : List Holding) → IsQuiet p p' → IsExclusive p held → IsExclusive p' held
quiet-IsExclusive p p' held q x = record {
  held_once = x.held_once;
  held_old = λ k l. x.held_old k (omega (arith, q.ids));
  pool_old = λ k l. q.olds k l (x.pool_old k (omega (arith, q.ids)));
  idle_free = λ k e. elim (q.idles k e) [ inl i ↦ x.idle_free k i | inr o ↦ x.held_old k o ];
}

-- A client gets a connection that nobody had, and that is not idle any more.
pub hold-IsExclusive :
    (client k : ℕ) (p p' : Pool) (held : List Holding)
    → holders k held ≡ 0
    → k < p'.next_id
    → has_idle k p'.pool ≡ false
    → IsQuiet p p'
    → IsExclusive p held
    → IsExclusive p' (record { client = client; connection = k } ∷ held)
unfolding holders
hold-IsExclusive client k p p' held f l i q x =
    let y = quiet-IsExclusive p p' held q x in
    record {
      held_once = λ j. ground (arith, f, y.held_once j, ==_iff j k);
      held_old = λ j m. ground (arith, l, y.held_old j);
      pool_old = y.pool_old;
      idle_free = λ j e. ground (arith, i, e, y.idle_free j, ==_iff j k);
    }

pub holders-drop_holding :
    (client k : ℕ) (held : List Holding)
    → holds client k held ≡ true
    → suc (holders k (drop_holding client k held)) ≡ holders k held
unfolding holders drop_holding holds
holders-drop_holding client k [] e = ground arith
holders-drop_holding client k (h ∷ hs) e = ground (arith, holders-drop_holding client k hs)

pub holders-let_go_other :
    (client k j : ℕ) (held : List Holding) → holders j (drop_holding client k held) ≤ holders j held
unfolding holders drop_holding
holders-let_go_other client k j [] = omega arith
holders-let_go_other client k j (h ∷ hs) = ground (arith, holders-let_go_other client k j hs)

pub drop_holding-IsExclusive :
    (client k : ℕ) (p : Pool) (held : List Holding)
    → IsExclusive p held
    → IsExclusive p (drop_holding client k held)
drop_holding-IsExclusive client k p held x = record {
  held_once = λ j. omega (arith, x.held_once j, holders-let_go_other client k j held);
  held_old = λ j l. omega (arith, x.held_old j l, holders-let_go_other client k j held);
  pool_old = x.pool_old;
  idle_free = λ j e. omega (arith, x.idle_free j e, holders-let_go_other client k j held);
}

pub change-IsQuiet :
    (k : ℕ) (f : Connection → Connection) (p : Pool)
    → ((d : Connection) → (f d).id ≡ d.id)
    → ((j : ℕ) → has_idle j (change k f p.pool) ≡ true → has_idle j p.pool ≡ true)
    → IsQuiet p (record p { pool = change k f p.pool })
change-IsQuiet k f p keeps idles = record {
  ids = omega arith;
  olds = λ j l e. has-change j k f keeps p.pool ∙ e;
  idles = λ j e. inl (idles j e);
}

pub check_out-IsQuiet :
    (k now : ℕ) (p : Pool) → IsQuiet p (record p { pool = change k (check_out now) p.pool })
check_out-IsQuiet k now p =
    change-IsQuiet k (check_out now) p (λ d. refl)
      (λ j e. elim (Bool-cases (j == k)) [
        | inl q ↦ ground (arith, ==_iff j k, q, e, has_idle-check_out k now p.pool)
        | inr q ↦ sym (has_idle-change j k (check_out now) (λ d. refl) p.pool q) ∙ e
      ])

pub unhealthy-IsQuiet :
    (k : ℕ) (p : Pool) → IsQuiet p (record p { pool = change k mark_unhealthy p.pool })
unhealthy-IsQuiet k p =
    change-IsQuiet k mark_unhealthy p (λ d. refl) (λ j e. sym (has_idle-unhealthy j k p.pool) ∙ e)

pub remove-IsQuiet : (k : ℕ) (p : Pool) → IsQuiet p (remove_connection_from_pool k p)
unfolding remove_connection_from_pool
remove-IsQuiet k p = elim (Bool-cases (any (has_id k) p.pool)) [
  | inl q ↦ simp q (record {
    ids = omega arith;
    olds = λ j l e. has-remove j k p.pool e;
    idles = λ j e. inl (has_idle-remove j k p.pool e);
  })
  | inr q ↦ simp q (record { ids = omega arith; olds = λ j l e. e; idles = λ j e. inl e })
]

pub drop-IsQuiet : (k : ℕ) (p : Pool) → IsQuiet p (record p { pool = remove_first k p.pool })
drop-IsQuiet k p = record {
  ids = omega arith;
  olds = λ j l e. has-remove j k p.pool e;
  idles = λ j e. inl (has_idle-remove j k p.pool e);
}

pub push-IsQuiet :
    (out : Bool) (now : ℕ) (p : Pool)
    → IsQuiet p (push_connection (new_connection p.next_id out now) p)
push-IsQuiet out now p =
    let c = new_connection p.next_id out now in
    record {
      ids = omega arith;
      olds = λ j l e. any-append (has_id j) p.pool c ∙ ground (arith, l, e);
      idles = λ j e. ground (arith, any-append (is_idle j) p.pool c, e, ==_iff j p.next_id);
    }

-- A pool that differs in what no connection has.
pub same-IsQuiet : (p p' : Pool) → p'.pool ≡ p.pool → p'.next_id ≡ p.next_id → IsQuiet p p'
same-IsQuiet p p' e f = record {
  ids = omega (arith, f);
  olds = λ k l h. ap (has k) e ∙ h;
  idles = λ k h. inl (sym (ap (has_idle k) e) ∙ h);
}

pub available-IsExclusive :
    (k : ℕ) (p : Pool) (held : List Holding)
    → holders k held ≡ 0
    → IsExclusive p held
    → IsExclusive (record p { pool = change k mark_available p.pool }) held
available-IsExclusive k p held f x = record {
  held_once = x.held_once;
  held_old = x.held_old;
  pool_old = λ j l. has-change j k mark_available (λ d. refl) p.pool ∙ x.pool_old j l;
  idle_free = λ j e. elim (Bool-cases (j == k)) [
    | inl q ↦ subst (λ i. holders i held ≡ 0) (sym ((==_iff j k).0 q)) f
    | inr q ↦ x.idle_free j (sym (has_idle-change j k mark_available (λ d. refl) p.pool q) ∙ e)
  ];
}
