-- ===== src/Task.antt =====
-- Locks on the nodes of a request: class TaskManager of xcat3/conductor/task_manager.py.
pub mod Locks
pub mod Exclusion
use xcat.Prelude.{
  ℕ, zero, suc, ◌≤◌, ◌≡◌, Bool, true, false, not, String, Option, none, some, List, [], ◌∷◌,
  if◌then◌else◌, is_empty,
}
use xcat.Db.{
  Node, Db, Error, node_not_found, node_locked, Result, ok, err, Action, pure, raise, ◌>>=◌, ◌>>◌,
  Engine,
}
use xcat.Db.Nodes.{reserve_nodes, release_nodes, get_node_in}

-- `retry_on_exception=lambda e: isinstance(e, exception.NodeLocked)`
abbrev pub is_locked {ℓ} : {A : Type ℓ} → Result A → Bool
is_locked (err node_locked) = true
is_locked _ = false

-- What other conductors and requests do to the tables while a call sleeps before an attempt.
abbrev pub Meanwhile : Type 0
Meanwhile = ℕ → Db → Db

-- The decorator of the package `retrying`: `run n others m` makes at most `n` attempts of `m`.
pub record Retry : Type 0 where
  pub run : ℕ → Meanwhile → Action (List Node) → Action (List Node)

-- Its documented behaviour with `retry_on_exception`: the first attempt that does not raise
-- NodeLocked counts, and the last attempt counts in any case.
pub record IsRetry (retry : Retry) : Type 0 where
  pub last :
      (others : Meanwhile) (m : Action (List Node)) (db : Db) → retry.run 1 others m db ≡ m db
  pub more :
      (k : ℕ) (others : Meanwhile) (m : Action (List Node)) (db : Db)
      → retry.run (suc (suc k)) others m db
        ≡ (if is_locked (m db).0 then retry.run (suc k) others m (others k (m db).1) else m db)

-- CONF.host, CONF.conductor.node_locked_retry_attempts, and what stands outside the program.
pub record Env : Type 0 where
  pub engine : Engine
  pub retry : Retry
  pub others : Meanwhile
  pub host : String
  pub attempts : ℕ

pub record TaskManager : Type 0 where
  pub node_names : List String
  pub shared : Bool
  pub nodes : Option (List Node)

-- `if self.nodes:`
abbrev pub has_nodes : Option (List Node) → Bool
has_nodes none = false
has_nodes (some rows) = not (is_empty rows)

abbrev is_not_found : Error → Bool
is_not_found node_not_found = true
is_not_found _ = false

-- `except exception.NodeNotFound: pass`
abbrev pub squelch_not_found : Action (Unit {0}) → Action (Unit {0})
squelch_not_found m db =
    let (r, db') = m db in
    elim r [ ok _ ↦ (ok tt, db') | err e ↦ (if is_not_found e then ok tt else err e, db') ]

-- TaskManager.release_resources; the attribute `nodes` is None afterwards.
unfoldable pub release_resources : Env → TaskManager → Action (Unit {0})
release_resources env task db =
    let release = squelch_not_found (release_nodes env.engine env.host task.node_names) db in
    if task.shared then (ok tt, db) else if has_nodes task.nodes then release else (ok tt, db)

-- TaskManager._lock
unfoldable pub lock : Env → List String → Action (List Node)
lock env names = env.retry.run env.attempts env.others (reserve_nodes env.engine env.host names)

-- A `try` whose handler runs `cleanup` and raises again; what the handler raises wins.
abbrev pub on_error : {A : Type 0} → Action A → Action (Unit {0}) → Action A
on_error m cleanup db =
    let (r, db') = m db in elim r [ ok a ↦ (ok a, db') | err e ↦ (cleanup >> raise e) db' ]

-- acquire, and TaskManager.__init__
unfoldable pub acquire : Env → List String → Bool → Action TaskManager
unfolding lock release_resources
acquire env names shared =
    on_error
      (if shared
        then (λ db. (
          ok (record {
            node_names = names;
            shared = true;
            nodes = some (get_node_in names ("reservation" ∷ []) [] db);
          }),
          db,
        ))
        else (do
          rows ← lock env names
          pure (record { node_names = names; shared = false; nodes = some rows })))
      (release_resources env (record { node_names = names; shared = shared; nodes = none }))

-- TaskManager.upgrade_lock
pub upgrade_lock : Env → TaskManager → Action TaskManager
unfolding lock
upgrade_lock env task =
    if task.shared
    then (do
      rows ← lock env task.node_names
      pure (record task { shared = false; nodes = some rows }))
    else pure task

-- TaskManager.__exit__ after the body of a `with` block, where no thread is to be spawned: what
-- the release raises wins over what the body returned or raised.
unfoldable pub exit : {A : Type 0} → Env → TaskManager → Result A → Action A
unfolding release_resources
exit env task r db =
    let (released, db') = release_resources env task db in
    elim released [ ok _ ↦ (r, db') | err e ↦ (err e, db') ]

-- `with task_manager.acquire(context, names, shared) as task: body(task.nodes)`
abbrev pub task_nodes : TaskManager → List Node
task_nodes task = elim task.nodes [ none ↦ [] | some rows ↦ rows ]

unfoldable pub with_task :
    {A : Type 0} → Env → List String → Bool → (List Node → Action A) → Action A
unfolding acquire exit
with_task env names shared body = do
  task ← acquire env names shared
  λ db. let (r, db') = body (task_nodes task) db in exit env task r db'
