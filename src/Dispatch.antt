-- ===== src/Dispatch.antt =====
-- How a request is spread over the conductors: class ConductorAPI of xcat3/conductor/rpcapi.py.
pub mod Split
pub mod Affinity
pub mod Success
use xcat.Prelude.{
  ℕ, zero, suc, ◌+◌, ◌-◌, ◌*◌, ◌/◌, ◌≤◌, ◌≡◌, Bool, true, false, not, ◌&&◌, String, Option, none,
  some, List, [], ◌∷◌, ◌++◌, map, Dict, lookup, insert, write_all, if◌then◌else◌, ltb, eqb, length,
  take, drop, slice, is_empty, select,
}
use xcat.Db.{
  Node, Db, Service, Error, no_free_api_worker, no_valid_host, invalid_parameter, Result, ok, err,
}
use Prim.Native.String.{◌++◌ as append}

-- The groups that are left to cut, from the group `i` on: the last takes what is left.
unfoldable pub groups_from : ℕ → ℕ → ℕ → List String → List (List String)
groups_from zero i per_group names = []
groups_from (suc zero) i per_group names = drop (i * per_group) names ∷ []
groups_from (suc (suc k)) i per_group names =
    slice (i * per_group) ((i + 1) * per_group) names ∷ groups_from (suc k) (i + 1) per_group names

-- The list `groups` of spawn_worker.
unfoldable pub groups : ℕ → List String → List (List String)
unfolding groups_from
groups local_workers names = groups_from local_workers 0 (length names / local_workers) names

-- A conductor is given more than one local worker only for enough names.
abbrev pub local_workers : ℕ → ℕ → List String → ℕ
local_workers per_group_count workers names =
    if ltb 1 workers && not (is_empty names) && ltb (length names) per_group_count
    then 1
    else workers

-- `_worker` for each group: the executor takes a call or rejects it.
unfoldable pub submit : (List String → Bool) → List (List String) → Result (List (List String))
submit accepts [] = ok []
submit accepts (g ∷ gs) =
    let rest = submit accepts gs in
    if accepts g
    then elim rest [ ok futures ↦ ok (g ∷ futures) | err e ↦ err e ]
    else err no_free_api_worker

-- ConductorAPI.spawn_worker: the names of each future that it starts.
unfoldable pub spawn_worker :
    (List String → Bool) → ℕ → ℕ → List String → Result (List (List String))
unfolding groups submit
spawn_worker accepts per_group_count workers names =
    let w = local_workers per_group_count workers names in
    if ltb 1 w
    then submit accepts (select (λ g. not (is_empty g)) (groups w names))
    else if is_empty names
    then ok []
    else submit accepts (names ∷ [])

-- '%s.%s' % (self.topic, hostname)
unfoldable pub topic_of : String → String → String
topic_of topic hostname = append topic (append "." hostname)

-- `cond.workers + 1 if cond.workers > 1 else 1`
abbrev pub rpc_workers : Service → ℕ
rpc_workers c = if ltb 1 c.workers then c.workers + 1 else 1

abbrev pub total_workers : List Service → ℕ
total_workers [] = 0
total_workers (c ∷ cs) = rpc_workers c + total_workers cs

-- The values of a topic_dict.
pub record NodeInfo : Type 0 where
  pub nodes : List String
  pub workers : ℕ

-- The loop of get_topic_for from the offset `j` on, as the pairs that it writes to the dict in turn.
-- A slice before the last runs from `j` to `cond.workers * per_worker`.
unfoldable pub assign_from : String → ℕ → List String → ℕ → List Service → List (String × NodeInfo)
unfolding topic_of
assign_from topic per_worker nodes j [] = []
assign_from topic per_worker nodes j (c ∷ []) =
    (topic_of topic c.hostname, record { nodes = drop j nodes; workers = rpc_workers c }) ∷ []
assign_from topic per_worker nodes j (c ∷ d ∷ cs) =
    (
      topic_of topic c.hostname,
      record { nodes = slice j (rpc_workers c * per_worker) nodes; workers = rpc_workers c },
    )
    ∷ assign_from topic per_worker nodes (j + rpc_workers c * per_worker) (d ∷ cs)

abbrev pub assign : String → List Service → List String → List (String × NodeInfo)
assign topic conductors nodes =
    assign_from topic (length nodes / total_workers conductors) nodes 0 conductors

-- ConductorAPI.get_topic_for, for the conductors that get_services(type='conductor') returns.
unfoldable pub get_topic_for : String → List Service → List String → Result (Dict NodeInfo)
unfolding assign_from
get_topic_for topic [] nodes = err no_valid_host
get_topic_for topic (c ∷ cs) nodes = ok (write_all (assign topic (c ∷ cs) nodes) [])

-- The loop of spawn_rpc_worker over the topics.
unfoldable pub spawn_topics :
    (List String → Bool) → ℕ → List (String × NodeInfo) → Result (List (String × List String))
unfolding spawn_worker
spawn_topics accepts per_group_count [] = ok []
spawn_topics accepts per_group_count ((topic, info) ∷ rest) =
    let later = spawn_topics accepts per_group_count rest in
    elim (spawn_worker accepts per_group_count info.workers info.nodes) [
      | err e ↦ err e
      | ok futures ↦ elim later [
        | err e ↦ err e
        | ok more ↦ ok (map (λ g. (topic, g)) futures ++ more)
      ]
    ]

-- The order in which `items()` of a dict gives its entries
abbrev pub Items : Type 0
Items = Dict NodeInfo → List (String × NodeInfo)

-- ConductorAPI.spawn_rpc_worker: the topic and the names of each future.
unfoldable pub spawn_rpc_worker :
    Items
    → (List String → Bool)
    → ℕ
    → String
    → List Service
    → List String
    → Result (List (String × List String))
spawn_rpc_worker items accepts per_group_count topic conductors names =
    elim (get_topic_for topic conductors names) [
      | err e ↦ err e
      | ok topics ↦ spawn_topics accepts per_group_count (items topics)
    ]
