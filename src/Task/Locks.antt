-- ===== src/Task/Locks.antt =====
-- The locks of nodes during a task: __init__ and __exit__ of class TaskManager in
-- xcat3/conductor/task_manager.py.
use xcat.Prelude.{
  inl, inr, Bool-cases, ℕ, zero, suc, ◌≡◌, refl, sym, ap, ◌∙◌, Bool, true, false, ◌&&◌, String,
  Option, none, some, List, [], ◌∷◌, arith, contains, count_where, update_where, is_text,
}
use xcat.Db.{Node, Db, Error, node_locked, Result, ok, err, Action, Engine, RollsBack}
use xcat.Db.Nodes.{set_reservation, reserve_nodes, release_nodes}
use xcat.Db.Nodes.Counts.{UniqueNames, count-free_in-le, count-taken_in}
use xcat.Db.Nodes.Reserve.{reserve_nodes-atomic, reserved, reserve_nodes-full, reserve_nodes-rows}
use xcat.Db.Nodes.Release.{held_in, freed, release_nodes_lem, freed-reserved}
use xcat.Task.{with_task, lock, Env, IsRetry, Meanwhile, exit, is_locked}

-- The locks of a table: who holds each node.
abbrev pub locks : List Node → List (String × Option String)
locks [] = []
locks (r ∷ rows) = (r.name, r.reservation) ∷ locks rows

abbrev held_pair : String → List String → String × Option String → Bool
held_pair tag names (n, o) = contains names n && is_text o tag

count-held_in :
    (tag : String) (names : List String) (rows : List Node)
    → count_where (held_in tag names) rows ≡ count_where (held_pair tag names) (locks rows)
count-held_in tag names [] = refl
count-held_in tag names (r ∷ rows) = omega (arith, count-held_in tag names rows)

locks-update :
    (tag : String) (names : List String) (rows : List Node)
    → locks (update_where (held_in tag names) (set_reservation none) rows)
      ≡ update_where (held_pair tag names) (λ p. (p.0, none)) (locks rows)
locks-update tag names [] = refl
locks-update tag names (r ∷ rows) = ground (arith, locks-update tag names rows)

-- A release after work that kept the locks of a reservation gives back the locks of before.
pub release_nodes-after_work :
    (engine : Engine) (tag : String) (names : List String) (db work : Db) (rows : List Node)
    → RollsBack engine
    → UniqueNames db.nodes
    → (reserve_nodes engine tag names db).0 ≡ ok rows
    → locks work.nodes ≡ locks (reserve_nodes engine tag names db).1.nodes
    → (release_nodes engine tag names work ≡ (ok tt, freed tag names work))
      × (locks (freed tag names work).nodes ≡ locks db.nodes)
release_nodes-after_work engine tag names db work rows rb u h kept =
    let (full, after) = reserve_nodes-full engine tag names db rows rb h in
    let (held, restored) =
      freed-reserved tag names db.nodes (count-taken_in names db.nodes u full) in
    let same : locks work.nodes ≡ locks (reserved tag names db).nodes =
      kept ∙ ap (λ (d : Db). locks d.nodes) after in
    (
      release_nodes_lem engine tag names work (
          omega (
            arith,
            count-held_in tag names work.nodes,
            count-held_in tag names (reserved tag names db).nodes,
            ap (count_where (held_pair tag names)) same,
            held,
            full,
            count-free_in-le names db.nodes u,
          )),
      locks-update tag names work.nodes
          ∙ ap (update_where (held_pair tag names) (λ p. (p.0, none))) same
          ∙ sym (locks-update tag names (reserved tag names db).nodes)
          ∙ ap locks restored,
    )

-- The tables that a call may find at an attempt: those it was made on, or what the others have
-- made of them while it slept.
pub data Waited (others : Meanwhile) : Db → Db → Type 0 where
  now : (db : Db) → Waited others db db
  later : (k : ℕ) (db at : Db) → Waited others (others k db) at → Waited others db at

is_locked-err : {A : Type 0} (r : Result A) → is_locked r ≡ true → r ≡ err node_locked
is_locked-err (ok a) h = cc
is_locked-err (err node_locked) h = refl
is_locked-err (err e) h = cc

module _ (env : Env) (law : IsRetry env.retry) (rb : RollsBack env.engine)
    (names : List String) where
  -- A lock is one attempt, made on the tables of that moment.
  lock-attempt :
      (k : ℕ) (db : Db)
      → (at : Db) × Waited env.others db at
        × (env.retry.run (suc k) env.others (reserve_nodes env.engine env.host names) db
            ≡ reserve_nodes env.engine env.host names at)
  lock-attempt zero db = (db, now db, law.last env.others _ db)
  lock-attempt (suc k) db =
      let m = reserve_nodes env.engine env.host names in
      elim (Bool-cases (is_locked (m db).0)) [
        | inl again ↦
            let same : (m db).1 ≡ db =
              reserve_nodes-atomic env.engine env.host names db node_locked rb
                (is_locked-err (m db).0 again) in
            let (at, w, e) = lock-attempt k (env.others k db) in
            (at, later k db at w, law.more k env.others m db ∙ rw (again, same) e)
        | inr done ↦ (db, now db, law.more k env.others m db ∙ rw done refl)
      ]

-- The end of a task that had locked its nodes: the result of its body stands, and every lock is as
-- it was before the task.
pub exit-restores_locks :
    {A : Type 0} (env : Env) (names : List String) (db work : Db) (rows : List Node) (r : Result A)
    → RollsBack env.engine
    → UniqueNames db.nodes
    → (reserve_nodes env.engine env.host names db).0 ≡ ok rows
    → locks work.nodes ≡ locks (reserve_nodes env.engine env.host names db).1.nodes
    → ((exit env (record { node_names = names; shared = false; nodes = some rows }) r work).0 ≡ r)
      × (locks
            (exit env
              (record { node_names = names; shared = false; nodes = some rows })
              r
              work).1.nodes
          ≡ locks db.nodes)
unfolding exit
exit-restores_locks env names db work rows r rb u h kept =
    let (returns, given_back) =
      release_nodes-after_work env.engine env.host names db work rows rb u h kept in
    let (is, some_row) = reserve_nodes-rows env.engine env.host names db rows rb h in
    ground (arith, some_row, returns, given_back)

module _ {A : Type 0} (env : Env) (names : List String) (body : List Node → Action A)
    (db now : Db) where
  -- A task whose lock is refused raises that and has changed nothing more.
  with_task-refused :
      (e : Error)
      → lock env names db ≡ (err e, now)
      → with_task env names false body db ≡ (err e, now)
  unfolding with_task
  with_task-refused e h = ground arith

  -- A task that has its lock runs its body and exits.
  with_task-locked :
      (rows : List Node)
      → lock env names db ≡ (ok rows, now)
      → with_task env names false body db
        ≡ exit env
            (record { node_names = names; shared = false; nodes = some rows })
            (body rows now).0
            (body rows now).1
  unfolding with_task
  with_task-locked rows h = ground arith

module _ (env : Env) (law : IsRetry env.retry) (rb : RollsBack env.engine)
    (names : List String) where
  -- How a task ended, as seen from the tables at its lock: it raised what the lock raised, or its
  -- body ran on the nodes that it had locked.
  pub data Ended {A : Type 0} (body : List Node → Action A) (at : Db) (r : Result A × Db)
      : Type 0 where
    refused :
        (e : Error)
        → (reserve_nodes env.engine env.host names at).0 ≡ err e
        → r.0 ≡ err e
        → Ended body at r
    done :
        (rows : List Node)
        → (reserve_nodes env.engine env.host names at).0 ≡ ok rows
        → r.0 ≡ (body rows (reserve_nodes env.engine env.host names at).1).0
        → Ended body at r

  -- An exclusive task whose body leaves names and locks alone raises what its last attempt at the
  -- lock raised, or ran its body on the nodes it had locked and its result is that of the body; in
  -- both cases all locks are as they were on the tables of that attempt. It is for at least one
  -- configured attempt, the documented retry and rollback, and unique names on all tables that may
  -- be met while waiting.
  pub with_task-restores_locks :
      {A : Type 0} (body : List Node → Action A) (k : ℕ) (db : Db)
      → env.attempts ≡ suc k
      → ((at : Db) → Waited env.others db at → UniqueNames at.nodes)
      → ((rows : List Node) (now : Db) → locks (body rows now).1.nodes ≡ locks now.nodes)
      → (at : Db) × Waited env.others db at
        × Ended body at (with_task env names false body db)
        × (locks (with_task env names false body db).1.nodes ≡ locks at.nodes)
  unfolding lock
  with_task-restores_locks body k db n u keeps =
      let (at, w, e) = lock-attempt env law rb names k db in
      let locked : env.retry.run env.attempts env.others (reserve_nodes env.engine env.host names)
            db
          ≡ reserve_nodes env.engine env.host names at =
        ap (λ t. env.retry.run t env.others (reserve_nodes env.engine env.host names) db) n ∙ e in
      ended at w locked (reserve_nodes env.engine env.host names at) refl
    where
      ended :
          (at : Db)
          → Waited env.others db at
          → env.retry.run env.attempts env.others (reserve_nodes env.engine env.host names) db
            ≡ reserve_nodes env.engine env.host names at
          → (p : Result (List Node) × Db) → reserve_nodes env.engine env.host names at ≡ p
          → (at : Db) × Waited env.others db at
            × Ended body at (with_task env names false body db)
            × (locks (with_task env names false body db).1.nodes ≡ locks at.nodes)
      ended at w locked (ok rows, held) e =
          let granted : (reserve_nodes env.engine env.host names at).0 ≡ ok rows =
            ap (λ q. q.0) e in
          let after : (reserve_nodes env.engine env.host names at).1 ≡ held = ap (λ q. q.1) e in
          let (same, given_back) =
            exit-restores_locks env names at (body rows held).1 rows (body rows held).0 rb (u at w)
              granted (keeps rows held ∙ ap (λ (d : Db). locks d.nodes) (sym after)) in
          rw (with_task-locked env names body db held rows (locked ∙ e))
            (at, w, done rows granted (rw after same), given_back)
      ended at w locked (err x, undone) e =
          let raised : (reserve_nodes env.engine env.host names at).0 ≡ err x = ap (λ q. q.0) e in
          let same : undone ≡ at =
            sym (ap (λ q. q.1) e) ∙ reserve_nodes-atomic env.engine env.host names at x rb raised in
          rw (with_task-refused env names body db undone x (locked ∙ e))
            (at, w, refused x raised refl, ap (λ (d : Db). locks d.nodes) same)
