-- ===== src/Dispatch/Success.antt =====
-- Requests that are sent: spawn_rpc_worker and get_topic_for_affinity of xcat3/conductor/rpcapi.py
-- where there are conductors and the executor takes every call.
use xcat.Prelude.{
  inl, inr, Bool-cases, Option-cases, ap, sym, ◌∙◌, ℕ, ◌≡◌, refl, Bool, true, not, String, eq_iff,
  Option, none, some, List, [], ◌∷◌, ◌++◌, map, arith, Dict, lookup, insert, lookup-insert,
  write_all, is_none, is_empty, select, eqb, ltb,
}
use xcat.Db.{Db, Service, ok}
use xcat.Db.Nodes.{get_node_affinity_in}
use xcat.Dispatch.{
  groups, local_workers, submit, spawn_worker, NodeInfo, topic_of, assign, get_topic_for,
  spawn_topics, spawn_rpc_worker, Items,
}
use xcat.Dispatch.Affinity.Placing.{meant_for}
use xcat.Dispatch.Affinity.{spread, topic_of_id, no_nodes, missing, get_topic_for_affinity}

module _ (accepts : List String → Bool) (willing : (g : List String) → accepts g ≡ true) where
  submit-willing : (gs : List (List String)) → submit accepts gs ≡ ok gs
  unfolding submit
  submit-willing [] = refl
  submit-willing (g ∷ gs) = ground (arith, willing g, submit-willing gs)

  spawn_worker-willing :
      (per_group_count workers : ℕ) (names : List String)
      → (futures : List (List String)) × (spawn_worker accepts per_group_count workers names
          ≡ ok futures)
  unfolding spawn_worker
  spawn_worker-willing per_group_count workers names =
      let w = local_workers per_group_count workers names in
      let cut = select (λ g. not (is_empty g)) (groups w names) in
      elim (Bool-cases (ltb 1 w)) [
        | inl several ↦ (cut, rw several (submit-willing cut))
        | inr one ↦ elim (Bool-cases (is_empty names)) [
          | inl nobody ↦ ([], rw (one, nobody))
          | inr somebody ↦ (names ∷ [], rw (one, somebody) (submit-willing (names ∷ [])))
        ]
      ]

  spawn_topics-willing :
      (per_group_count : ℕ) (entries : List (String × NodeInfo))
      → (calls : List (String × List String)) × (spawn_topics accepts per_group_count entries
          ≡ ok calls)
  unfolding spawn_topics
  spawn_topics-willing per_group_count [] = ([], refl)
  spawn_topics-willing per_group_count ((topic, info) ∷ rest) =
      let (futures, started) = spawn_worker-willing per_group_count info.workers info.nodes in
      let (more, later) = spawn_topics-willing per_group_count rest in
      (map (λ g. (topic, g)) futures ++ more, rw (started, later, spawn_topics))

  -- With at least one conductor and an executor that accepts every call, spawn_rpc_worker returns
  -- its calls.
  pub spawn_rpc_worker-succeeds :
      (items : Items) (per_group_count : ℕ) (topic : String) (c : Service) (cs : List Service)
      (names : List String)
      → (calls : List (String × List String)) × (spawn_rpc_worker items accepts per_group_count
            topic
            (c ∷ cs)
            names
          ≡ ok calls)
  unfolding spawn_rpc_worker get_topic_for
  spawn_rpc_worker-succeeds items per_group_count topic c cs names =
      spawn_topics-willing per_group_count (items (write_all (assign topic (c ∷ cs) names) []))

abbrev is_key : String → Dict NodeInfo → Bool
is_key topic topics = not (is_none (lookup topic topics))

is_key-insert :
    (t topic : String) (info : NodeInfo) (topics : Dict NodeInfo)
    → is_key topic topics ≡ true
    → is_key topic (insert t info topics) ≡ true
is_key-insert t topic info topics h = ground (arith, lookup-insert t topic info topics)

module _ (cond_dict : ℕ → Option String) (show : ℕ → String) (default : String) where
  -- The loop does not raise where every topic that a node may be meant for has an entry.
  spread-succeeds :
      (nodes : List (String × Option ℕ)) (topics : Dict NodeInfo) (result : Dict String)
      → ((a : Option ℕ) (t : String)
          → meant_for cond_dict default a ≡ some t
          → is_key t topics ≡ true)
      → (done : Dict NodeInfo × Dict String) × (spread cond_dict show default nodes topics result
          ≡ ok done)
  unfolding spread
  spread-succeeds [] topics result h = ((topics, result), refl)
  spread-succeeds ((n, none) ∷ nodes) topics result h =
      elim (Option-cases (lookup default topics)) [
        | inl absent ↦ ground (arith, absent, h none default refl)
        | inr (info, found) ↦
            let info' : NodeInfo = record info { nodes = info.nodes ++ n ∷ [] } in
            rw (found, spread)
              (spread-succeeds nodes (insert default info' topics) result
                (λ a t to. is_key-insert default t info' topics (h a t to)))
      ]
  spread-succeeds ((n, some i) ∷ nodes) topics result h =
      elim (Option-cases (meant_for cond_dict default (some i))) [
        | inl left_out ↦
            rw (left_out, spread)
              (spread-succeeds nodes topics (insert n (missing show i) result) h)
        | inr (topic, to) ↦ elim (Option-cases (lookup topic topics)) [
          | inl absent ↦ ground (arith, absent, h (some i) topic to)
          | inr (info, found) ↦
              let info' : NodeInfo = record info { nodes = info.nodes ++ n ∷ [] } in
              rw (to, found, spread)
                (spread-succeeds nodes (insert topic info' topics) result
                  (λ a t to. is_key-insert topic t info' topics (h a t to)))
        ]
      ]

is_key-write_all :
    (topic wanted : String) (conductors : List Service) (topics : Dict NodeInfo)
    → is_key wanted topics ≡ true
    → is_key wanted (write_all (map (no_nodes topic) conductors) topics) ≡ true
is_key-write_all topic wanted [] topics h = h
is_key-write_all topic wanted (c ∷ cs) topics h =
    is_key-write_all topic wanted cs
      (insert (topic_of topic c.hostname) (no_nodes topic c).1 topics)
      (is_key-insert (topic_of topic c.hostname) wanted (no_nodes topic c).1 topics h)

is_key-inserted :
    (t : String) (info : NodeInfo) (topics : Dict NodeInfo) → is_key t (insert t info topics) ≡ true
is_key-inserted t info topics = ground (arith, lookup-insert t t info topics, eq_iff t t)

-- The topic of a conductor that is found by its id has an entry.
is_key-topic_of_id :
    (topic : String) (i : ℕ) (t : String) (conductors : List Service) (topics : Dict NodeInfo)
    → topic_of_id topic conductors i ≡ some t
    → is_key t (write_all (map (no_nodes topic) conductors) topics) ≡ true
is_key-topic_of_id topic i t [] topics h = cc
is_key-topic_of_id topic i t (c ∷ cs) topics h = elim (Bool-cases (eqb c.id i)) [
  | inl same ↦
      let e : topic_of topic c.hostname ≡ t = ground (arith, same) in
      let info = (no_nodes topic c).1 in
      is_key-write_all topic t cs (insert (topic_of topic c.hostname) info topics) (
        ap (λ k. is_key k (insert (topic_of topic c.hostname) info topics)) (sym e)
        ∙ is_key-inserted (topic_of topic c.hostname) info topics)
  | inr other ↦
      is_key-topic_of_id topic i t cs
        (insert (topic_of topic c.hostname) (no_nodes topic c).1 topics) (rw other at h)
]

-- With at least one conductor, get_topic_for_affinity returns for every list of names and every
-- table, also where the conductor of a node is not there.
pub get_topic_for_affinity-succeeds :
    (show : ℕ → String) (topic : String) (c : Service) (cs : List Service) (names : List String)
    (result : Dict String) (db : Db)
    → (done : Dict NodeInfo × Dict String) × (get_topic_for_affinity show topic
          (c ∷ cs)
          names
          result
          db
        ≡ ok done)
unfolding get_topic_for_affinity
get_topic_for_affinity-succeeds show topic c cs names result db =
    spread-succeeds (topic_of_id topic (c ∷ cs)) show (topic_of topic c.hostname)
      (get_node_affinity_in names db) topics result covered
  where
    topics : Dict NodeInfo
    topics = write_all (map (no_nodes topic) (c ∷ cs)) []

    default : String
    default = topic_of topic c.hostname

    first : is_key default topics ≡ true
    first =
        is_key-write_all topic default cs (insert default (no_nodes topic c).1 [])
          (is_key-inserted default (no_nodes topic c).1 [])

    covered :
        (a : Option ℕ) (t : String)
        → meant_for (topic_of_id topic (c ∷ cs)) default a ≡ some t
        → is_key t topics ≡ true
    covered none t h = ap (λ k. is_key k topics) (sym (ground arith)) ∙ first
    covered (some i) t h = elim (Bool-cases (eqb i 0)) [
      | inl nobody ↦
          let e : default ≡ t = ground (arith, nobody) in ap (λ k. is_key k topics) (sym e) ∙ first
      | inr somebody ↦ is_key-topic_of_id topic i t (c ∷ cs) [] (rw somebody at h)
    ]
