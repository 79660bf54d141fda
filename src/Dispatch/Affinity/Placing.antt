-- ===== src/Dispatch/Affinity/Placing.antt =====
-- The nodes that get_topic_for_affinity of xcat3/conductor/rpcapi.py lists under each topic.
use mathlib.Core.Option
use mathlib.Core.List.{append_assoc, append-nil}
use xcat.Prelude.{
  inl, inr, Bool-cases, Option-cases, sym, ◌∙◌, ap, ℕ, ◌≡◌, refl, String, ◌==◌, eq_iff, Option,
  none, some, List, [], ◌∷◌, ◌++◌, map, arith, Dict, lookup, insert, lookup-insert, write_all,
  if◌then◌else◌, is_text, eqb,
}
use xcat.Db.{Db, Service, ok}
use xcat.Db.Nodes.{get_node_affinity_in}
use xcat.Dispatch.{topic_of, NodeInfo}
use xcat.Dispatch.Affinity.{missing, spread, topic_of_id, no_nodes, get_topic_for_affinity}

-- The topic that a node is meant for.
abbrev pub meant_for : (ℕ → Option String) → String → Option ℕ → Option String
meant_for cond_dict default none = some default
meant_for cond_dict default (some i) = if eqb i 0 then some default else cond_dict i

abbrev pub meant : (ℕ → Option String) → String → String → List (String × Option ℕ) → List String
meant cond_dict default topic [] = []
meant cond_dict default topic ((n, a) ∷ nodes) =
    if is_text (meant_for cond_dict default a) topic
    then n ∷ meant cond_dict default topic nodes
    else meant cond_dict default topic nodes

abbrev pub nodes_at : String → Dict NodeInfo → Option (List String)
nodes_at topic topics = Option.map (λ (info : NodeInfo). info.nodes) (lookup topic topics)

abbrev pub and_then : List String → Option (List String) → Option (List String)
and_then more = Option.map (λ names. names ++ more)

module _ (cond_dict : ℕ → Option String) (show : ℕ → String) (default topic : String) where
  nodes_at-insert :
      (t n : String) (info : NodeInfo) (topics : Dict NodeInfo) (more : List String)
      → lookup t topics ≡ some info
      → and_then more
          (nodes_at topic (insert t (record info { nodes = info.nodes ++ n ∷ [] }) topics))
        ≡ and_then (if t == topic then n ∷ more else more) (nodes_at topic topics)
  nodes_at-insert t n info topics more found = elim (Bool-cases (t == topic)) [
    | inl same ↦
        let e : t ≡ topic = (eq_iff t topic).0 same in
        let at : lookup topic topics ≡ some info = ap (λ k. lookup k topics) (sym e) ∙ found in
        ground (
          arith,
          same,
          at,
          append_assoc info.nodes (n ∷ []) more,
          lookup-insert t topic (record info { nodes = info.nodes ++ n ∷ [] }) topics,
        )
    | inr other ↦
        ground (
          arith,
          other,
          lookup-insert t topic (record info { nodes = info.nodes ++ n ∷ [] }) topics,
        )
  ]

  and_then-nil : (o : Option (List String)) → o ≡ and_then [] o
  and_then-nil none = refl
  and_then-nil (some names) = ap some (sym (append-nil names))

  -- Each topic has got the nodes that are meant for it, in their order.
  spread-nodes :
      (nodes : List (String × Option ℕ)) (topics : Dict NodeInfo) (result : Dict String)
      (done : Dict NodeInfo × Dict String)
      → spread cond_dict show default nodes topics result ≡ ok done
      → nodes_at topic done.0
        ≡ and_then (meant cond_dict default topic nodes) (nodes_at topic topics)
  unfolding spread
  spread-nodes [] topics result done h = ground (arith, and_then-nil (nodes_at topic topics))
  spread-nodes ((n, none) ∷ nodes) topics result done h =
      elim (Option-cases (lookup default topics)) [
        | inl absent ↦ ground (arith, absent)
        | inr (info, found) ↦
            let topics' = insert default (record info { nodes = info.nodes ++ n ∷ [] }) topics in
            spread-nodes nodes topics' result done (rw (found, spread) at h)
            ∙ nodes_at-insert default n info topics (meant cond_dict default topic nodes) found
      ]
  spread-nodes ((n, some i) ∷ nodes) topics result done h =
      elim (Option-cases (meant_for cond_dict default (some i))) [
        | inl left_out ↦ rw left_out (
            spread-nodes nodes topics (insert n (missing show i) result) done
              (rw (left_out, spread) at h))
        | inr (t, to) ↦ elim (Option-cases (lookup t topics)) [
          | inl absent ↦ ground (arith, absent, to)
          | inr (info, found) ↦
              let topics' = insert t (record info { nodes = info.nodes ++ n ∷ [] }) topics in
              rw to (
                spread-nodes nodes topics' result done (rw (to, found, spread) at h)
                ∙ nodes_at-insert t n info topics (meant cond_dict default topic nodes) found)
        ]
      ]

-- No topic has nodes at the start.
nodes_at-write :
    (topic wanted : String) (conductors : List Service) (topics : Dict NodeInfo)
    (names : List String)
    → ((got : List String) → nodes_at wanted topics ≡ some got → got ≡ [])
    → nodes_at wanted (write_all (map (no_nodes topic) conductors) topics) ≡ some names
    → names ≡ []
nodes_at-write topic wanted [] topics names h found = h names found
nodes_at-write topic wanted (c ∷ cs) topics names h found =
    nodes_at-write topic wanted cs (insert (topic_of topic c.hostname) (no_nodes topic c).1 topics)
      names
      (λ got at. ground (
        arith,
        h got,
        lookup-insert (topic_of topic c.hostname) wanted (no_nodes topic c).1 topics,
      ))
      found

-- If get_topic_for_affinity returns, the nodes listed under a topic are, in table order, the
-- requested nodes whose conductor has that topic, together with the nodes without a conductor for
-- the topic of the first conductor.
pub get_topic_for_affinity-nodes :
    (show : ℕ → String) (topic wanted : String) (c : Service) (cs : List Service)
    (names got : List String) (result : Dict String) (db : Db) (done : Dict NodeInfo × Dict String)
    → get_topic_for_affinity show topic (c ∷ cs) names result db ≡ ok done
    → nodes_at wanted done.0 ≡ some got
    → got
      ≡ meant
          (topic_of_id topic (c ∷ cs))
          (topic_of topic c.hostname)
          wanted
          (get_node_affinity_in names db)
unfolding get_topic_for_affinity
get_topic_for_affinity-nodes show topic wanted c cs names got result db done h at =
    let topics = write_all (map (no_nodes topic) (c ∷ cs)) [] in
    let nodes = get_node_affinity_in names db in
    let e =
      spread-nodes (topic_of_id topic (c ∷ cs)) show (topic_of topic c.hostname) wanted nodes topics
        result done h in
    elim (Option-cases (nodes_at wanted topics)) [
      | inl absent ↦ ground (arith, e, absent, at)
      | inr (start, found) ↦ ground (
        arith,
        e,
        found,
        at,
        nodes_at-write topic wanted (c ∷ cs) [] start (λ names k. ground arith) found,
      )
    ]
