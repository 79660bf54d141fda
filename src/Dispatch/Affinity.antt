-- ===== src/Dispatch/Affinity.antt =====
-- Requests that go to the conductor that deployed a node: get_topic_for_affinity,
-- spawn_affinity_worker and get_topic_for_callback of xcat3/conductor/rpcapi.py.
pub mod Placing
use mathlib.Core.Option
use mathlib.Core.List.{append_assoc, append-nil}
use xcat.Prelude.{
  inl, inr, Bool-cases, Option-cases, sym, ◌∙◌, ap, ℕ, ◌≡◌, refl, Bool, String, ◌==◌, eq_iff,
  Option, none, some, List, [], ◌∷◌, ◌++◌, map, arith, Dict, lookup, insert, lookup-insert,
  write_all, if◌then◌else◌, is_text, eqb, find_where,
}
use xcat.Db.{Db, Service, no_valid_host, key_error, Result, ok, err}
use xcat.Db.Nodes.{get_node_affinity_in}
use xcat.Db.Services.{get_service_from_id}
use xcat.Dispatch.{topic_of, NodeInfo, Items, spawn_topics}
use Prim.Native.String.{◌++◌ as append}

-- The text of the program for a conductor that is not there, and how numbers are shown.
abbrev pub missing : (ℕ → String) → ℕ → String
missing show i = append "Conductor " (append (show i) " could not be found")

-- The loop over `nodes`. Each goes to the topic of its conductor, or to the default topic where it
-- has none; one whose conductor is not there is left out, with a message in the result.
unfoldable pub spread :
    (ℕ → Option String)
    → (ℕ → String)
    → String
    → List (String × Option ℕ)
    → Dict NodeInfo
    → Dict String
    → Result (Dict NodeInfo × Dict String)
spread cond_dict show default [] topics result = ok (topics, result)
spread cond_dict show default ((n, none) ∷ nodes) topics result = elim (lookup default topics) [
  | none ↦ err key_error
  | some info ↦
      spread cond_dict show default nodes
        (insert default (record info { nodes = info.nodes ++ n ∷ [] }) topics) result
]
spread cond_dict show default ((n, some i) ∷ nodes) topics result =
    elim (if eqb i 0 then some default else cond_dict i) [
      | none ↦ spread cond_dict show default nodes topics (insert n (missing show i) result)
      | some topic ↦ elim (lookup topic topics) [
        | none ↦ err key_error
        | some info ↦
            spread cond_dict show default nodes
              (insert topic (record info { nodes = info.nodes ++ n ∷ [] }) topics) result
      ]
    ]

-- `cond_dict`; the ids of conductors are unique.
abbrev pub topic_of_id : String → List Service → ℕ → Option String
topic_of_id topic conductors i =
    Option.map (λ (c : Service). topic_of topic c.hostname)
      (find_where (λ c. eqb c.id i) conductors)

abbrev pub no_nodes : String → Service → String × NodeInfo
no_nodes topic c = (topic_of topic c.hostname, record { nodes = []; workers = c.workers })

-- ConductorAPI.get_topic_for_affinity: the topics, and `result['nodes']`.
unfoldable pub get_topic_for_affinity :
    (ℕ → String)
    → String
    → List Service
    → List String
    → Dict String
    → Db
    → Result (Dict NodeInfo × Dict String)
unfolding spread
get_topic_for_affinity show topic [] names result db = err no_valid_host
get_topic_for_affinity show topic (c ∷ cs) names result db =
    spread (topic_of_id topic (c ∷ cs)) show (topic_of topic c.hostname)
      (get_node_affinity_in names db) (write_all (map (no_nodes topic) (c ∷ cs)) []) result

-- ConductorAPI.spawn_affinity_worker: the calls, and `result['nodes']`.
pub spawn_affinity_worker :
    Items
    → (List String → Bool)
    → ℕ
    → (ℕ → String)
    → String
    → List Service
    → List String
    → Dict String
    → Db
    → Result (List (String × List String) × Dict String)
unfolding get_topic_for_affinity
spawn_affinity_worker items accepts per_group_count show topic conductors names result db =
    elim (get_topic_for_affinity show topic conductors names result db) [
      | err e ↦ err e
      | ok (topics, result') ↦ elim (spawn_topics accepts per_group_count (items topics)) [
        | err e ↦ err e
        | ok calls ↦ ok (calls, result')
      ]
    ]

-- ConductorAPI.get_topic_for_callback
pub get_topic_for_callback : String → ℕ → Db → Result String
get_topic_for_callback topic conductor_id db = elim (get_service_from_id conductor_id db).0 [
  | err e ↦ err e
  | ok conductor ↦ ok (topic_of topic conductor.hostname)
]
