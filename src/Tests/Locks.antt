-- ===== src/Tests/Locks.antt =====
-- Reservations, tasks and leases on the nodes of the installation.
use xcat.Prelude.{
  ◌≤◌, ◌≡◌, refl, ap, true, false, String, eq_iff, none, some, List, [], ◌∷◌, arith, contains,
  count_where, find_where,
}
use xcat.Db.{Node, Db, node_locked, ok, err, Action, session_for_write}
use xcat.Db.Nodes.{has_name, set_reservation, reserve_nodes, release_nodes, raise_first_locked}
use xcat.Db.Nodes.Counts.{UniqueNames}
use xcat.Db.Nodes.Reserve.{reserved, reserve_nodes-locks, reserve_nodes-succeeds}
use xcat.Db.Nodes.Release.{release_nodes-reserve_nodes}
use xcat.Task.{with_task}
use xcat.Task.Locks.{locks, Waited, now, later, Ended, with_task-restores_locks}
use xcat.Task.Exclusion.{System, acquire, Reach, start, step, holds, mutual_exclusion}
use xcat.Tests.{
  rolling_back, rolling_back_lem, idle, tables, tables-UniqueNames, retrying-IsRetry, env,
}

abbrev a_locked : Db
a_locked = reserved "h" ("a" ∷ []) tables

a-reserved :
    reserve_nodes rolling_back "h" ("a" ∷ []) tables
    ≡ (ok (set_reservation (some "h") idle ∷ []), a_locked)
unfolding reserve_nodes session_for_write
a-reserved = refl

a-refused : (reserve_nodes rolling_back "g" ("a" ∷ []) a_locked).0 ≡ err node_locked
unfolding reserve_nodes session_for_write
a-refused = refl

a-kept : (release_nodes rolling_back "g" ("a" ∷ []) a_locked).0 ≡ err node_locked
unfolding release_nodes session_for_write raise_first_locked
a-kept = refl

a-freed : (release_nodes rolling_back "h" ("a" ∷ []) a_locked).0 ≡ ok tt
unfolding release_nodes session_for_write raise_first_locked
a-freed = refl

reserve_nodes-locks_example :
    (r : Node) × (find_where (has_name "a") tables.nodes ≡ some r)
    × (r.reservation ≡ none)
    × (find_where (has_name "a") (reserve_nodes rolling_back "h" ("a" ∷ []) tables).1.nodes
        ≡ some (set_reservation (some "h") r))
reserve_nodes-locks_example =
    reserve_nodes-locks rolling_back "h" ("a" ∷ []) tables (set_reservation (some "h") idle ∷ [])
      "a" rolling_back_lem tables-UniqueNames (ap (λ p. p.0) a-reserved) refl

a-free :
    (n : String)
    → contains ("a" ∷ []) n ≡ true
    → (r : Node) × (find_where (has_name n) tables.nodes ≡ some r) × (r.reservation ≡ none)
a-free n asked = (idle, ground (arith, eq_iff n "a", eq_iff "a" n), refl)

reserve_nodes-succeeds_example :
    (rows : List Node) × ((reserve_nodes rolling_back "h" ("a" ∷ []) tables).0 ≡ ok rows)
reserve_nodes-succeeds_example =
    reserve_nodes-succeeds rolling_back "h" ("a" ∷ []) tables rolling_back_lem tables-UniqueNames
      refl refl a-free

release_nodes-reserve_nodes_example :
    release_nodes rolling_back "h" ("a" ∷ []) (reserve_nodes rolling_back "h" ("a" ∷ []) tables).1
    ≡ (ok tt, tables)
release_nodes-reserve_nodes_example =
    release_nodes-reserve_nodes rolling_back "h" ("a" ∷ []) tables
      (set_reservation (some "h") idle ∷ []) rolling_back_lem tables-UniqueNames
      (ap (λ p. p.0) a-reserved)

Waited-same : {db at : Db} → Waited env.others db at → at ≡ db
Waited-same (now db) = refl
Waited-same (later k db at w) = Waited-same w

pub Waited-tables : (at : Db) → Waited env.others tables at → UniqueNames at.nodes
Waited-tables at w = rw (Waited-same w) tables-UniqueNames

abbrev hello : List Node → Action String
hello rows db = (ok "hello", db)

with_task-restores_locks_example :
    (at : Db) × Waited env.others tables at
    × Ended env retrying-IsRetry rolling_back_lem
        ("a" ∷ [])
        hello
        at
        (with_task env ("a" ∷ []) false hello tables)
    × (locks (with_task env ("a" ∷ []) false hello tables).1.nodes ≡ locks at.nodes)
with_task-restores_locks_example =
    with_task-restores_locks env retrying-IsRetry rolling_back_lem ("a" ∷ []) hello 1 tables refl
      Waited-tables (λ rows now. refl)

abbrev initial : System
initial = record { db = tables; held = [] }

abbrev granted : System
granted = record { db = a_locked; held = record { tag = "h"; names = "a" ∷ [] } ∷ [] }

initial-granted : Reach rolling_back initial granted
unfolding reserve_nodes session_for_write
initial-granted = step start (acquire "h" ("a" ∷ []) (set_reservation (some "h") idle ∷ []) refl)

mutual_exclusion_example : count_where (holds "a") granted.held ≤ 1
mutual_exclusion_example =
    mutual_exclusion rolling_back rolling_back_lem initial granted "a" tables-UniqueNames refl
      initial-granted
