-- ===== src/Conductor.antt =====
-- The RPC methods of class ConductorManager in xcat3/conductor/manager.py.
pub mod Workers
pub mod Destroy
pub mod Provision
pub mod Clean
pub mod Boot
pub mod Locks
use xcat.Prelude.{
  ℕ, ◌≡◌, Bool, true, false, not, ◌&&◌, String, ◌==◌, Option, none, some, List, [], ◌∷◌, ◌++◌, map,
  Dict, lookup, insert, write_all, keys, if◌then◌else◌, is_none, is_text, truthy, contains, length,
  is_empty, select,
}
use xcat.Db.{
  Node, Db, Error, Result, ok, err, no_free_service_worker, plugin_not_found, key_error, Action,
  pure, raise, ◌>>=◌, ◌>>◌, raise_if, Engine,
}
use xcat.Db.Nodes.{Changes, destroy_nodes, save_nodes}
use xcat.Db.Dhcp.{Opts, save_or_update_dhcp, destroy_dhcp}
use xcat.Task.{Env, with_task}

-- xcat3/common/states.py
abbrev pub success : String
success = "ok"

abbrev pub deleted : String
deleted = "deleted"

abbrev pub deploy_dhcp : String
deploy_dhcp = "dhcp"

abbrev pub deploy_nodeset : String
deploy_nodeset = "deploying"

abbrev pub deploy_done : String
deploy_done = "deployed"

-- How the future of a worker stands when the wait is over.
pub data Finish : Type 0 where
  raised : Error → Finish
  returned : Option String → Finish
  unfinished : Finish

-- The plugin that a node names (xcat3/plugins/control/base.py), as far as the manager calls it.
pub record ControlPlugin : Type 0 where
  pub validate : Node → Result (Unit {0})
  pub set_power_state : Node → String → Result (Unit {0})
  pub get_power_state : Node → Result (Option String)
  pub get_boot_device : Node → Result (Option String)
  pub set_boot_device : Node → String → Result (Unit {0})

-- A conductor: its locks and database, the text of an exception, the text of a timeout, the nodes
-- whose call the executor accepts and whose call ends in time, and the plugins.
pub record Conductor : Type 0 where
  pub env : Env
  pub text : Error → String
  pub timeout_text : String
  pub accepts : Node → Bool
  pub in_time : Node → Bool
  pub service_id : ℕ
  pub ipmi : ControlPlugin
  pub kvm : ControlPlugin

-- PluginMap.get_control_plugin of xcat3/plugins/mapping.py
unfoldable pub get_control_plugin : Conductor → Node → Result ControlPlugin
get_control_plugin c node =
    if is_text node.mgt "ipmi"
    then ok c.ipmi
    else if is_text node.mgt "kvm"
    then ok c.kvm
    else err plugin_not_found

abbrev pub bind : {A B : Type 0} → Result A → (A → Result B) → Result B
bind (ok a) f = f a
bind (err e) f = err e

-- What a thread returns or raises, as its future shows it.
abbrev pub future : Conductor → (Node → Result (Option String)) → Node → Finish
future c work node =
    if c.in_time node
    then (elim (work node) [ ok v ↦ returned v | err e ↦ raised e ])
    else unfinished

abbrev pub is_done : Finish → Bool
is_done unfinished = false
is_done _ = true

-- `six.text_type(r.exception())`, `r.result() or SUCCESS`, and the timeout message
abbrev pub reply : Conductor → Finish → String
reply c (raised e) = c.text e
reply c (returned none) = success
reply c (returned (some v)) = if truthy (some v) then v else success
reply c unfinished = c.timeout_text

abbrev pub all_accepted : (Node → Bool) → List Node → Bool
all_accepted accepts [] = true
all_accepted accepts (r ∷ rows) = accepts r && all_accepted accepts rows

abbrev pub replies :
    Conductor → (Node → Finish) → (Node → Bool) → List Node → List (String × String)
replies c finish p rows = map (λ (r : Node). (r.name, reply c (finish r))) (select p rows)

-- ConductorManager._process_nodes_worker: first the futures that are done, then the others.
unfoldable pub process_nodes_worker : Conductor → (Node → Finish) → List Node → Result (Dict String)
process_nodes_worker c finish rows =
    if all_accepted c.accepts rows
    then ok (
        write_all (replies c finish (λ r. not (is_done (finish r))) rows)
          (write_all (replies c finish (λ r. is_done (finish r)) rows) []))
    else err no_free_service_worker

abbrev pub lift : {A : Type 0} → Result A → Action A
lift r db = (r, db)

-- `names` of ConductorManager._filter_result
abbrev pub succeeded : Dict String → List String
succeeded result = keys (select (λ p. p.1 == success) result)

-- `nodes` of ConductorManager._filter_result
abbrev pub succeeded_nodes : Dict String → List Node → List Node
succeeded_nodes result = select (λ (r : Node). contains (succeeded result) r.name)

-- fill_result of xcat3/common/utils.py
unfoldable pub fill_result : Dict String → List String → String → Dict String
fill_result result [] message = result
fill_result result (n ∷ names) message = fill_result (insert n message result) names message

-- `_change_power_state`
unfoldable pub power_work : Conductor → String → Node → Result (Option String)
unfolding get_control_plugin
power_work c target node = bind (get_control_plugin c node) λ plugin.
    bind (plugin.validate node) λ _. bind (plugin.set_power_state node target) λ _. ok none

-- ConductorManager.change_power_state
pub change_power_state : Conductor → List String → String → Action (Dict String)
unfolding process_nodes_worker power_work
change_power_state c names target =
    with_task c.env names false
      λ rows. lift (process_nodes_worker c (future c (power_work c target)) rows)

-- `_get_power_state`
pub get_power_work : Conductor → Node → Result (Option String)
unfolding get_control_plugin
get_power_work c node =
    bind (get_control_plugin c node)
      λ plugin. bind (plugin.validate node) λ _. plugin.get_power_state node

-- ConductorManager.get_power_state, under a shared lock
pub get_power_state : Conductor → List String → Action (Dict String)
unfolding process_nodes_worker get_power_work
get_power_state c names =
    with_task c.env names true
      λ rows. lift (process_nodes_worker c (future c (get_power_work c)) rows)
