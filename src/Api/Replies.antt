-- ===== src/Api/Replies.antt =====
-- _wait_rpc_result of xcat3/api/controllers/v1/node.py: the reply of a name, by how the calls ended.
use xcat.Prelude.{
  All, is_none, inl, inr, Bool-cases, Option-cases, ap, sym, ◌∙◌, ◌≡◌, refl, true, false, not,
  String, Option, none, some, List, [], ◌∷◌, ◌++◌, arith, Dict, lookup, insert, lookup-insert,
  write_all, if◌then◌else◌, contains, is_empty, select,
}
use xcat.Db.{ok}
use xcat.Conductor.{fill_result}
use xcat.Conductor.Workers.{or_else, lookup-fill_result}
use xcat.Api.{
  Outcome, replied, failed, pending, RpcFuture, Reply, named, collect, collect_all, is_pending,
  expire, wait_rpc_result,
}

lookup-write_all :
    (n : String) (answers : Dict String) (d : Dict String)
    → lookup n (write_all answers d) ≡ or_else (lookup n (write_all answers [])) (lookup n d)
lookup-write_all n [] d = refl
lookup-write_all n ((k, v) ∷ answers) d = ground (
  arith,
  lookup-write_all n answers (insert k v d),
  lookup-write_all n answers (insert k v []),
  lookup-insert k n v d,
)

-- What the end of a call says of a name: the answer of the manager, or for each name of the call the
-- message of what was raised, or that the wait timed out.
abbrev pub says : String → String → RpcFuture → Option String
says timeout_text n future = elim future.outcome [
  | replied answers ↦ lookup n (write_all answers [])
  | failed message code ↦ if contains (named future.nodes) n then some message else none
  | pending ↦ if contains (named future.nodes) n then some timeout_text else none
]

-- The last call that says something of the name counts.
abbrev pub heard : String → String → List RpcFuture → Option String → Option String
heard timeout_text n [] before = before
heard timeout_text n (future ∷ futures) before =
    heard timeout_text n futures (or_else (says timeout_text n future) before)

module _ (timeout_text n : String) where
  -- What a failure with the names of its call says of a name.
  lookup-told :
      (names : List String) (message : String) (reply : Reply)
      → lookup n
          (if is_empty names
            then record reply { error = some message }
            else record reply { nodes = fill_result reply.nodes names message }).nodes
        ≡ or_else (if contains names n then some message else none) (lookup n reply.nodes)
  lookup-told [] message reply = refl
  lookup-told (m ∷ names) message reply =
      ground (arith, lookup-fill_result reply.nodes (m ∷ names) message n)

  lookup-collect :
      (future : RpcFuture) (reply : Reply)
      → is_pending future ≡ false
      → lookup n (collect future reply).nodes
        ≡ or_else (says timeout_text n future) (lookup n reply.nodes)
  unfolding collect
  lookup-collect future reply done = cases future.outcome done
    where
      cases :
          (o : Outcome)
          → is_pending (record { nodes = future.nodes; outcome = o }) ≡ false
          → lookup n (collect (record { nodes = future.nodes; outcome = o }) reply).nodes
            ≡ or_else
                (says timeout_text n (record { nodes = future.nodes; outcome = o }))
                (lookup n reply.nodes)
      cases (replied answers) done = lookup-write_all n answers reply.nodes
      cases (failed message none) done = lookup-told (named future.nodes) message reply
      cases (failed message (some code)) done = lookup-told (named future.nodes) message reply
      cases pending done = cc

  lookup-collect_all :
      (futures : List RpcFuture) (reply : Reply)
      → lookup n (collect_all (select (λ f. not (is_pending f)) futures) reply).nodes
        ≡ heard timeout_text n (select (λ f. not (is_pending f)) futures) (lookup n reply.nodes)
  unfolding collect_all
  lookup-collect_all [] reply = refl
  lookup-collect_all (future ∷ futures) reply = elim (Bool-cases (is_pending future)) [
    | inl waits ↦ rw waits (lookup-collect_all futures reply)
    | inr done ↦ rw done (
        lookup-collect_all futures (collect future reply)
        ∙ ap (heard timeout_text n (select (λ f. not (is_pending f)) futures))
            (lookup-collect future reply done))
  ]

  -- A call that timed out says so of its names.
  says-pending :
      (future : RpcFuture) (names : List String)
      → future.nodes ≡ some names
      → is_pending future ≡ true
      → says timeout_text n future ≡ (if contains names n then some timeout_text else none)
  says-pending future names carried waits = cases future.outcome waits
    where
      cases :
          (o : Outcome)
          → is_pending (record { nodes = future.nodes; outcome = o }) ≡ true
          → says timeout_text n (record { nodes = future.nodes; outcome = o })
            ≡ (if contains names n then some timeout_text else none)
      cases (replied answers) waits = cc
      cases (failed message code) waits = cc
      cases pending waits = rw carried refl

  lookup-expire :
      (futures : List RpcFuture) (reply final : Reply)
      → expire timeout_text (select is_pending futures) reply ≡ ok final
      → lookup n final.nodes
        ≡ heard timeout_text n (select is_pending futures) (lookup n reply.nodes)
  unfolding expire
  lookup-expire [] reply final h = ground arith
  lookup-expire (future ∷ futures) reply final h = elim (Bool-cases (is_pending future)) [
    | inr done ↦ rw done (lookup-expire futures reply final (rw done at h))
    | inl waits ↦ elim (Option-cases future.nodes) [
      | inl nobody ↦ ground (arith, nobody, waits)
      | inr (names, carried) ↦
          let next : Reply = record reply { nodes = fill_result reply.nodes names timeout_text } in
          rw waits (
            lookup-expire futures next final (rw (waits, carried) at h)
            ∙ ap (heard timeout_text n (select is_pending futures)) (
                ground (
                  arith,
                  says-pending future names carried waits,
                  lookup-fill_result reply.nodes names timeout_text n,
                )))
    ]
  ]

  heard-append :
      (xs ys : List RpcFuture) (before : Option String)
      → heard timeout_text n (xs ++ ys) before
        ≡ heard timeout_text n ys (heard timeout_text n xs before)
  heard-append [] ys before = refl
  heard-append (x ∷ xs) ys before = heard-append xs ys (or_else (says timeout_text n x) before)

  -- If _wait_rpc_result returns, the reply of a name is what the last call says that says
  -- something of it, the calls that have ended before those that have not: the answer of the
  -- manager, the message of a failure or a timeout for each name of the call, and otherwise what
  -- the reply said before.
  pub lookup-wait_rpc_result :
      (futures : List RpcFuture) (reply final : Reply)
      → wait_rpc_result timeout_text futures reply ≡ ok final
      → lookup n final.nodes
        ≡ heard timeout_text n
            (select (λ f. not (is_pending f)) futures ++ select is_pending futures)
            (lookup n reply.nodes)
  unfolding wait_rpc_result
  lookup-wait_rpc_result futures reply final h =
      let done = select (λ f. not (is_pending f)) futures in
      lookup-expire futures (collect_all done reply) final h
      ∙ ap (heard timeout_text n (select is_pending futures)) (lookup-collect_all futures reply)
      ∙ sym (heard-append done (select is_pending futures) (lookup n reply.nodes))

-- Futures that are not done carry names.
abbrev pub AllNamed : List RpcFuture → Type 0
AllNamed = All (λ (f : RpcFuture). is_pending f ≡ true → is_none f.nodes ≡ false)

expire-succeeds :
    (timeout_text : String) (futures : List RpcFuture) (reply : Reply)
    → AllNamed futures
    → (final : Reply) × (expire timeout_text (select is_pending futures) reply ≡ ok final)
unfolding expire
expire-succeeds timeout_text [] reply h = (reply, refl)
expire-succeeds timeout_text (future ∷ futures) reply h = elim (Bool-cases (is_pending future)) [
  | inr done ↦ rw done (expire-succeeds timeout_text futures reply h.1)
  | inl waits ↦ elim (Option-cases future.nodes) [
    | inl nobody ↦ ground (arith, nobody, h.0 waits)
    | inr (names, carried) ↦
        rw (waits, carried, expire)
          (expire-succeeds timeout_text futures
            (record reply { nodes = fill_result reply.nodes names timeout_text }) h.1)
  ]
]

-- If every call that has not ended carries names, _wait_rpc_result returns.
pub wait_rpc_result-succeeds :
    (timeout_text : String) (futures : List RpcFuture) (reply : Reply)
    → AllNamed futures
    → (final : Reply) × (wait_rpc_result timeout_text futures reply ≡ ok final)
unfolding wait_rpc_result
wait_rpc_result-succeeds timeout_text futures reply h =
    expire-succeeds timeout_text futures
      (collect_all (select (λ f. not (is_pending f)) futures) reply) h
