-- ===== src/Dispatch/Split.antt =====
-- The names of a request and the calls that carry them: spawn_worker, get_topic_for and
-- spawn_rpc_worker of xcat3/conductor/rpcapi.py.
use xcat.Prelude.{
  ℕ, zero, suc, ◌+◌, ◌-◌, ◌*◌, ◌/◌, ◌≤◌, ◌≡◌, ◌≢◌, refl, sym, ap, ◌∙◌, Bool, true, false, not,
  String, eq_iff, List, [], ◌∷◌, ◌++◌, map, arith, if◌then◌else◌, ltb, length, take, drop, slice,
  is_empty, select, count_where, ◌==◌, ◌⊎◌, inl, inr, Bool-cases, flatten, flatten-append,
  slice-append-drop, take-append-drop,
}
use text.Mathlib.TextLemmas.{append_cancel_left}
use Prim.Native.String.{◌++◌ as append}
use mathlib.Core.List.{append-nil}
use native.Mathlib.Nat.{zero-add}
use xcat.Db.{no_free_api_worker, Service, Result, ok, err}
use xcat.Dispatch.{
  groups_from, groups, local_workers, submit, spawn_worker, topic_of, rpc_workers, total_workers,
  NodeInfo, assign_from, assign, get_topic_for, spawn_topics, spawn_rpc_worker, Items,
}

groups_from-flatten :
    (k i per_group : ℕ) (names : List String)
    → flatten (groups_from (suc k) i per_group names) ≡ drop (i * per_group) names
unfolding groups_from
groups_from-flatten zero i per_group names = append-nil (drop (i * per_group) names)
groups_from-flatten (suc k) i per_group names =
    ap (λ l. slice (i * per_group) ((i + 1) * per_group) names ++ l)
      (groups_from-flatten k (i + 1) per_group names)
    ∙ slice-append-drop (i * per_group) ((i + 1) * per_group) names (omega arith)

-- For at least one worker, the groups of names, one after the other, are exactly the names in
-- their order.
pub flatten-groups : (k : ℕ) (names : List String) → flatten (groups (suc k) names) ≡ names
unfolding groups
flatten-groups k names =
    let start : 0 * (length names / suc k) ≡ 0 = omega arith in
    groups_from-flatten k 0 (length names / suc k) names ∙ ap (λ n. drop n names) start

flatten-select :
    (gs : List (List String)) → flatten (select (λ g. not (is_empty g)) gs) ≡ flatten gs
flatten-select [] = refl
flatten-select ([] ∷ gs) = flatten-select gs
flatten-select ((n ∷ g) ∷ gs) = ap (λ l. (n ∷ g) ++ l) (flatten-select gs)

submit-head :
    (g : List String) (accepted : Bool) (rest : Result (List (List String)))
    (futures : List (List String))
    → ◌≡◌ {A = Result (List (List String))}
        (if accepted
          then (elim rest [ ok fs ↦ ok (g ∷ fs) | err e ↦ err e ])
          else err no_free_api_worker)
        (ok futures)
    → (fs : List (List String)) × (rest ≡ ok fs) × (futures ≡ g ∷ fs)
submit-head g true (ok fs) futures h = (fs, refl, cc)
submit-head g true (err e) futures h = cc
submit-head g false rest futures h = cc

submit-all :
    (accepts : List String → Bool) (gs futures : List (List String))
    → submit accepts gs ≡ ok futures
    → futures ≡ gs
unfolding submit
submit-all accepts [] futures h = cc
submit-all accepts (g ∷ gs) futures h =
    let (fs, e, cut) = submit-head g (accepts g) (submit accepts gs) futures h in
    cut ∙ ap (λ l. g ∷ l) (submit-all accepts gs fs e)

-- If spawn_worker returns, the names of its futures, one future after the other, are exactly the
-- names that it was given in their order.
pub spawn_worker-covers :
    (accepts : List String → Bool) (per_group_count workers : ℕ) (names : List String)
    (futures : List (List String))
    → spawn_worker accepts per_group_count workers names ≡ ok futures
    → flatten futures ≡ names
unfolding spawn_worker
spawn_worker-covers accepts per_group_count workers names futures h =
    let w = local_workers per_group_count workers names in
    elim (Bool-cases (ltb 1 w)) [
      | inl several ↦
          let e : w ≡ suc (w - 1) = ground arith in
          ap flatten (
            submit-all accepts (select (λ g. not (is_empty g)) (groups w names)) futures
              (rw several at h))
          ∙ flatten-select (groups w names)
          ∙ ap (λ n. flatten (groups n names)) e
          ∙ flatten-groups (w - 1) names
      | inr one ↦ spawn_one names (rw one at h)
    ]
  where
    spawn_one :
        (ns : List String)
        → (if is_empty ns then ok [] else submit accepts (ns ∷ [])) ≡ ok futures
        → flatten futures ≡ ns
    spawn_one [] e = ground arith
    spawn_one (n ∷ ns) e =
        ap flatten (submit-all accepts ((n ∷ ns) ∷ []) futures e) ∙ append-nil (n ∷ ns)

-- The names of each entry that get_topic_for writes.
abbrev pub assigned_nodes : List (String × NodeInfo) → List (List String)
assigned_nodes = map (λ p. p.1.nodes)

slice-from_zero : (b : ℕ) (names : List String) → slice 0 b names ≡ take b names
slice-from_zero b names = let e : b - 0 ≡ b = omega arith in ap (λ n. take n names) e

slice-backwards : (a b : ℕ) (names : List String) → b ≤ a → slice a b names ≡ []
slice-backwards a b names h = let e : b - a ≡ 0 = omega arith in ap (λ n. take n (drop a names)) e

-- A single conductor is assigned all the names.
assign-one :
    (topic : String) (a : Service) (names : List String)
    → flatten (assigned_nodes (assign topic (a ∷ []) names)) ≡ names
unfolding assign_from
assign-one topic a names = append-nil names

-- Two conductors are assigned all the names.
assign-two :
    (topic : String) (a b : Service) (names : List String)
    → flatten (assigned_nodes (assign topic (a ∷ b ∷ []) names)) ≡ names
unfolding assign_from
assign-two topic a b names =
    let j = rpc_workers a * (length names / total_workers (a ∷ b ∷ [])) in
    simp (append-nil, zero-add, slice-from_zero) (take-append-drop j names)

-- With three conductors, the second of which has no more workers than the first, the names that
-- get_topic_for assigns are the share of the first followed by what the last takes, so that the
-- share of the second is lost.
pub assign-three :
    (topic : String) (a b c : Service) (names : List String)
    → rpc_workers b ≤ rpc_workers a
    → let per_worker = length names / total_workers (a ∷ b ∷ c ∷ []) in
      flatten (assigned_nodes (assign topic (a ∷ b ∷ c ∷ []) names))
      ≡ take (rpc_workers a * per_worker) names
        ++ drop ((rpc_workers a + rpc_workers b) * per_worker) names
unfolding assign_from
assign-three topic a b c names h =
    let per_worker = length names / total_workers (a ∷ b ∷ c ∷ []) in
    let back : rpc_workers b * per_worker ≤ rpc_workers a * per_worker = grind arith in
    let end : rpc_workers a * per_worker + rpc_workers b * per_worker
        ≡ (rpc_workers a + rpc_workers b) * per_worker =
      omega arith in
    simp (append-nil, zero-add, slice-from_zero)
      (rw (slice-backwards (rpc_workers a * per_worker) (rpc_workers b * per_worker) names back)
        (ap (λ n. take (rpc_workers a * per_worker) names ++ drop n names) end))

-- The names of the calls that spawn_rpc_worker makes.
abbrev pub called_nodes : List (String × List String) → List (List String)
called_nodes = map (λ p. p.1)

called_nodes-topic :
    (topic : String) (gs : List (List String)) (more : List (String × List String))
    → called_nodes (map (λ g. (topic, g)) gs ++ more) ≡ gs ++ called_nodes more
called_nodes-topic topic [] more = refl
called_nodes-topic topic (g ∷ gs) more = ap (λ l. g ∷ l) (called_nodes-topic topic gs more)

module _ (accepts : List String → Bool) (per_group_count : ℕ) where
  -- If no call is rejected, the calls carry what the entries assign.
  spawn_topics-covers :
      (entries : List (String × NodeInfo)) (calls : List (String × List String))
      → spawn_topics accepts per_group_count entries ≡ ok calls
      → flatten (called_nodes calls) ≡ flatten (assigned_nodes entries)
  unfolding spawn_topics
  spawn_topics-covers [] calls h = ground arith
  spawn_topics-covers ((topic, info) ∷ rest) calls h =
      first (spawn_worker accepts per_group_count info.workers info.nodes) refl
        (spawn_topics accepts per_group_count rest) (spawn_topics-covers rest) h
    where
      first :
          (futures : Result (List (List String)))
          → spawn_worker accepts per_group_count info.workers info.nodes ≡ futures
          → (later : Result (List (String × List String)))
          → ((more : List (String × List String))
              → later ≡ ok more
              → flatten (called_nodes more) ≡ flatten (assigned_nodes rest))
          → ◌≡◌ {A = Result (List (String × List String))}
              (elim futures [
                | err e ↦ err e
                | ok fs ↦ elim later [
                  | err e ↦ err e
                  | ok more ↦ ok (map (λ g. (topic, g)) fs ++ more)
                ]
              ])
              (ok calls)
          → flatten (called_nodes calls) ≡ info.nodes ++ flatten (assigned_nodes rest)
      first (err e) spawned later ih k = cc
      first (ok fs) spawned (err e) ih k = cc
      first (ok fs) spawned (ok more) ih k =
          let cut : calls ≡ map (λ g. (topic, g)) fs ++ more = cc in
          rw cut (
            rw (called_nodes-topic topic fs more) (
              flatten-append fs (called_nodes more)
              ∙ rw (
                spawn_worker-covers accepts per_group_count info.workers info.nodes fs spawned,
                ih more refl,
              )))

  topics-two :
      (topic : String) (a b : Service) (names : List String)
      → a.hostname ≢ b.hostname
      → get_topic_for topic (a ∷ b ∷ []) names ≡ ok (assign topic (a ∷ b ∷ []) names)
  unfolding get_topic_for assign_from topic_of
  topics-two topic a b names ne = ground (
    arith,
    eq_iff (topic_of topic a.hostname) (topic_of topic b.hostname),
    λ (e : topic_of topic a.hostname ≡ topic_of topic b.hostname).
        append_cancel_left "." a.hostname b.hostname
          (append_cancel_left topic (append "." a.hostname) (append "." b.hostname) e),
  )

  count_where-append :
      (n : String) (xs ys : List String)
      → count_where (λ m. m == n) (xs ++ ys)
        ≡ count_where (λ m. m == n) xs + count_where (λ m. m == n) ys
  count_where-append n [] ys = omega arith
  count_where-append n (x ∷ xs) ys = omega (arith, count_where-append n xs ys)

  flatten-two :
      (xs ys : List String) (n : String)
      → count_where (λ m. m == n) (flatten (ys ∷ xs ∷ []))
        ≡ count_where (λ m. m == n) (flatten (xs ∷ ys ∷ []))
  flatten-two xs ys n =
      simp append-nil (omega (arith, count_where-append n xs ys, count_where-append n ys xs))

  -- The calls carry what two entries assign, whichever comes first.
  ordered :
      (items : Items) (p q : String × NodeInfo) (calls : List (String × List String)) (n : String)
      → (items (p ∷ q ∷ []) ≡ p ∷ q ∷ []) ⊎ (items (p ∷ q ∷ []) ≡ q ∷ p ∷ [])
      → spawn_topics accepts per_group_count (items (p ∷ q ∷ [])) ≡ ok calls
      → count_where (λ m. m == n) (flatten (called_nodes calls))
        ≡ count_where (λ m. m == n) (flatten (assigned_nodes (p ∷ q ∷ [])))
  ordered items p q calls n (inl e) h =
      ap (count_where (λ m. m == n)) (spawn_topics-covers (p ∷ q ∷ []) calls (rw e at h))
  ordered items p q calls n (inr e) h =
      ap (count_where (λ m. m == n)) (spawn_topics-covers (q ∷ p ∷ []) calls (rw e at h))
      ∙ flatten-two p.1.nodes q.1.nodes n

  assign-pair :
      (topic : String) (a b : Service) (names : List String)
      → (p : String × NodeInfo) × (q : String × NodeInfo) × (assign topic (a ∷ b ∷ []) names
          ≡ p ∷ q ∷ [])
  unfolding assign_from
  assign-pair topic a b names = (_, _, refl)

  -- With two conductors on different hosts, if spawn_rpc_worker starts its calls, they carry every
  -- name exactly as often as the request does, in whichever order the dict of the two topics is
  -- gone through.
  pub spawn_rpc_worker-two :
      (items : Items) (topic : String) (a b : Service) (names : List String)
      (calls : List (String × List String)) (n : String)
      → ((p q : String × NodeInfo)
          → (items (p ∷ q ∷ []) ≡ p ∷ q ∷ []) ⊎ (items (p ∷ q ∷ []) ≡ q ∷ p ∷ []))
      → a.hostname ≢ b.hostname
      → spawn_rpc_worker items accepts per_group_count topic (a ∷ b ∷ []) names ≡ ok calls
      → count_where (λ m. m == n) (flatten (called_nodes calls)) ≡ count_where (λ m. m == n) names
  unfolding spawn_rpc_worker
  spawn_rpc_worker-two items topic a b names calls n orders ne h =
      let (p, q, is) = assign-pair topic a b names in
      let started = rw (topics-two topic a b names ne, spawn_rpc_worker) at h in
      ordered items p q calls n (orders p q) (rw is at started)
      ∙ ap (λ entries. count_where (λ m. m == n) (flatten (assigned_nodes entries))) (sym is)
      ∙ ap (count_where (λ m. m == n)) (assign-two topic a b names)

  -- With one conductor, if spawn_rpc_worker starts its calls, the names that the calls carry are, one call
  -- after the other, exactly the names of the request in their order.
  pub spawn_rpc_worker-one :
      (items : Items) (topic : String) (a : Service) (names : List String)
      (calls : List (String × List String))
      → ((p : String × NodeInfo) → items (p ∷ []) ≡ p ∷ [])
      → spawn_rpc_worker items accepts per_group_count topic (a ∷ []) names ≡ ok calls
      → flatten (called_nodes calls) ≡ names
  unfolding spawn_rpc_worker get_topic_for assign_from
  spawn_rpc_worker-one items topic a names calls single h =
      let all_names = drop 0 names in
      spawn_topics-covers (assign topic (a ∷ []) names) calls (rw single at h)
      ∙ assign-one topic a names
