-- ===== src/Api.antt =====
-- Requests for lists of nodes: xcat3/api/controllers/v1/node.py, from the names of a request to the
-- reply for each of them.
pub mod Filter
pub mod Replies
pub mod Create
pub mod Patch
pub mod Values
pub mod Resources
pub mod Nics
pub mod Remote
pub mod Provision
use xcat.Prelude.{
  ℕ, Bool, true, false, not, ◌&&◌, ◌||◌, String, ◌==◌, Option, none, some, List, [], ◌∷◌, map, Dict,
  lookup, insert, write_all, if◌then◌else◌, is_none, is_text, contains, is_empty, select,
}
use xcat.Db.{Node, Db, Error, type_error, invalid_parameter, deploy_state_failure, Result, ok, err}
use xcat.Db.Nodes.{get_node_in, get_node_by_name}
use xcat.Db.Services.{get_services}
use xcat.Dispatch.{Items, spawn_rpc_worker}
use xcat.Dispatch.Affinity.{get_topic_for_callback}
use xcat.Conductor.{fill_result, deploy_nodeset}

abbrev pub not_found_text : String
not_found_text = "Could not be found."

abbrev pub locked_text : String
locked_text = "Locked temporarily"

-- `[name[0] for name in dbapi.get_node_in(names, filters, fields=['name'])]`
abbrev pub names_in : List String → List String → Db → List String
names_in names filters db = map (λ (r : Node). r.name) (get_node_in names filters ("name" ∷ []) db)

abbrev pub tell : String → List String → List (String × String)
tell message = map (λ n. (n, message))

abbrev pub without : List String → List String → List String
without gone = select (λ n. not (contains gone n))

-- _filter_unavailable_nodes: `result['nodes']`, and the names to go on with.
unfoldable pub filter_unavailable_nodes : List String → Bool → Db → Dict String × List String
filter_unavailable_nodes names share db =
    let exist_names = names_in names [] db in
    let locked_names = names_in names ("not_reservation" ∷ []) db in
    let result = write_all (tell not_found_text (without exist_names names)) [] in
    if share
    then (result, exist_names)
    else (write_all (tell locked_text locked_names) result, without locked_names exist_names)

-- How the future of an RPC call stands when the wait is over: the reply of the manager, or the
-- message and the code of what was raised.
pub data Outcome : Type 0 where
  replied : Dict String → Outcome
  failed : String → Option ℕ → Outcome
  pending : Outcome

-- A future with its attribute `nodes`.
pub record RpcFuture : Type 0 where
  pub nodes : Option (List String)
  pub outcome : Outcome

pub record Reply : Type 0 where
  pub nodes : Dict String
  pub error : Option String
  pub errorcode : Option ℕ

abbrev pub with_code : Option ℕ → Reply → Reply
with_code none reply = reply
with_code (some code) reply = record reply { errorcode = some code }

-- `if nodes:`
abbrev pub named : Option (List String) → List String
named none = []
named (some names) = names

-- The turn of the first loop of _wait_rpc_result for a future that is done.
unfoldable pub collect : RpcFuture → Reply → Reply
collect future reply = elim future.outcome [
  | replied answers ↦ record reply { nodes = write_all answers reply.nodes }
  | failed message code ↦ with_code code (
      if is_empty (named future.nodes)
      then record reply { error = some message }
      else record reply { nodes = fill_result reply.nodes (named future.nodes) message })
  | pending ↦ reply
]

unfoldable pub collect_all : List RpcFuture → Reply → Reply
unfolding collect
collect_all [] reply = reply
collect_all (future ∷ futures) reply = collect_all futures (collect future reply)

abbrev pub is_pending : RpcFuture → Bool
is_pending future = elim future.outcome [
  | replied answers ↦ false
  | failed message code ↦ false
  | pending ↦ true
]

-- The second loop, over the futures that are not done: without names it iterates over None.
unfoldable pub expire : String → List RpcFuture → Reply → Result Reply
expire timeout_text [] reply = ok reply
expire timeout_text (future ∷ futures) reply = elim future.nodes [
  | none ↦ err type_error
  | some names ↦
      expire timeout_text futures
        (record reply { nodes = fill_result reply.nodes names timeout_text })
]

-- _wait_rpc_result; the futures that are done come in the order in which the wait gives them.
unfoldable pub wait_rpc_result : String → List RpcFuture → Reply → Result Reply
unfolding collect_all expire
wait_rpc_result timeout_text futures reply =
    expire timeout_text (select is_pending futures)
      (collect_all (select (λ f. not (is_pending f)) futures) reply)

-- What an API process knows: the executor, the order of its dicts, CONF.api.per_group_count, the topic, the time and
-- CONF.heartbeat_timeout, the text of a timeout, and how the calls that it makes end.
pub record ApiServer : Type 0 where
  pub accepts : List String → Bool
  pub items : Items
  pub per_group_count : ℕ
  pub topic : String
  pub now : ℕ
  pub heartbeat_timeout : ℕ
  pub timeout_text : String
  pub calls : List (String × List String) → List RpcFuture

-- The handlers that filter the names, send them to the conductors and wait: get of
-- NodePowerController and BootDeviceController, put of NodePowerController.
pub forward : ApiServer → List String → Db → Result Reply
unfolding filter_unavailable_nodes wait_rpc_result
forward server names db =
    let (result, available) = filter_unavailable_nodes names false db in
    let conductors = get_services server.now server.heartbeat_timeout "conductor" true db in
    elim (spawn_rpc_worker server.items server.accepts server.per_group_count server.topic
      conductors available) [
        | err e ↦ err e
        | ok calls ↦
            wait_rpc_result server.timeout_text (server.calls calls)
              (record { nodes = result; error = none; errorcode = none })
      ]

-- BootDeviceController.put
pub put_boot_device : ApiServer → String → List String → Db → Result Reply
unfolding forward
put_boot_device server target names db =
    let reply = forward server names db in
    if contains ("net" ∷ "disk" ∷ "cdrom" ∷ "unknown" ∷ []) target
    then reply
    else err invalid_parameter

-- NodesController.delete
pub delete : ApiServer → List String → Db → Result Reply
unfolding forward filter_unavailable_nodes
delete server names db =
    let (result, available) = filter_unavailable_nodes names false db in
    let reply = forward server names db in
    if is_empty available
    then ok (record { nodes = result; error = none; errorcode = none })
    else reply

pub data Callback : Type 0 where
  public_key : Callback
  continued : String → Callback

-- NodeProvisionController.callback: the public key where the node asks for it, else the topic to
-- which the request goes.
pub callback : String → String → Bool → Db → Result Callback
callback topic name fetches_key db = elim (get_node_by_name name db).0 [
  | err e ↦ err e
  | ok node ↦ elim node.conductor_affinity [
    | none ↦ err deploy_state_failure
    | some i ↦
        if is_text node.state deploy_nodeset
        then (if fetches_key then ok public_key else (elim (get_topic_for_callback topic i db) [
          | err e ↦ err e
          | ok t ↦ ok (continued t)
        ]))
        else err deploy_state_failure
  ]
]
