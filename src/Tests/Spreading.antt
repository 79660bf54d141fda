-- ===== src/Tests/Spreading.antt =====
-- Requests that are spread over the conductors of the installation.
use xcat.Prelude.{
  ℕ, ◌≡◌, ◌≢◌, refl, ap, Bool, true, false, String, ◌==◌, List, [], ◌∷◌, arith, Dict, flatten,
  count_where, inr,
}
use xcat.Db.{ok}
use xcat.Db.Nodes.{get_node_affinity_in}
use xcat.Dispatch.{
  groups, groups_from, spawn_worker, submit, topic_of, assign, assign_from, NodeInfo, get_topic_for,
  spawn_topics, spawn_rpc_worker, Items,
}
use xcat.Dispatch.Split.{assigned_nodes, assign-three, called_nodes, spawn_rpc_worker-two}
use xcat.Dispatch.Affinity.{spread, get_topic_for_affinity, topic_of_id}
use xcat.Dispatch.Affinity.Placing.{meant, get_topic_for_affinity-nodes}
use xcat.Tests.{first_host, second_host, third_host, tables}

abbrev three_names : List String
three_names = "a" ∷ "b" ∷ "c" ∷ []

abbrev accept_all : List String → Bool
accept_all names = true

three-spawned : spawn_worker accept_all 2 2 three_names ≡ ok (("a" ∷ []) ∷ ("b" ∷ "c" ∷ []) ∷ [])
unfolding spawn_worker groups groups_from submit
three-spawned = refl

-- A dict that gives the second of two topics first
abbrev second_first : Items
second_first (p ∷ q ∷ []) = q ∷ p ∷ []
second_first topics = topics

two-called :
    spawn_rpc_worker second_first accept_all 2 "t" (first_host ∷ second_host ∷ []) three_names
    ≡ ok (("t.g", "b" ∷ "c" ∷ []) ∷ ("t.h", "a" ∷ []) ∷ [])
unfolding spawn_rpc_worker get_topic_for assign_from spawn_topics topic_of spawn_worker groups
    groups_from submit
two-called = refl

hosts-differ : first_host.hostname ≢ second_host.hostname
hosts-differ e = let k : true ≡ false = ap (λ s. s == "h") e in cc

spawn_rpc_worker-two_example :
    count_where
      (λ m. m == "a")
      (flatten (called_nodes (("t.g", "b" ∷ "c" ∷ []) ∷ ("t.h", "a" ∷ []) ∷ [])))
    ≡ count_where (λ m. m == "a") three_names
spawn_rpc_worker-two_example =
    spawn_rpc_worker-two accept_all 2 second_first "t" first_host second_host three_names
      (("t.g", "b" ∷ "c" ∷ []) ∷ ("t.h", "a" ∷ []) ∷ []) "a" (λ p q. inr refl) hosts-differ
      two-called

one-called :
    spawn_rpc_worker second_first accept_all 2 "t" (first_host ∷ []) three_names
    ≡ ok (("t.h", three_names) ∷ [])
unfolding spawn_rpc_worker get_topic_for assign_from spawn_topics topic_of spawn_worker groups
    groups_from submit
one-called = refl

-- The second of three conductors gets nothing.
assign-three_example :
    flatten (assigned_nodes (assign "t" (first_host ∷ second_host ∷ third_host ∷ []) three_names))
    ≡ "a" ∷ "c" ∷ []
assign-three_example = assign-three "t" first_host second_host third_host three_names (omega arith)

abbrev no_number : ℕ → String
no_number i = "?"

abbrev placed : Dict NodeInfo × Dict String
placed = (
  ("t.h", record { nodes = "a" ∷ "b" ∷ []; workers = 1 })
      ∷ ("t.g", record { nodes = []; workers = 1 })
      ∷ [],
  [],
)

names-placed :
    get_topic_for_affinity no_number "t" (first_host ∷ second_host ∷ []) ("a" ∷ "b" ∷ []) [] tables
    ≡ ok placed
unfolding get_topic_for_affinity spread topic_of get_node_affinity_in
names-placed = refl

get_topic_for_affinity-nodes_example :
    "a" ∷ "b" ∷ []
    ≡ meant
        (topic_of_id "t" (first_host ∷ second_host ∷ []))
        (topic_of "t" "h")
        "t.h"
        (get_node_affinity_in ("a" ∷ "b" ∷ []) tables)
get_topic_for_affinity-nodes_example =
    get_topic_for_affinity-nodes no_number "t" "t.h" first_host (second_host ∷ []) ("a" ∷ "b" ∷ [])
      ("a" ∷ "b" ∷ []) [] tables placed names-placed refl
