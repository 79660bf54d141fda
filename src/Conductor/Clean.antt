-- ===== src/Conductor/Clean.antt =====
-- ConductorManager.clean and provision_callback of xcat3/conductor/manager.py: a deployment is given
-- up, or is done.
use xcat.Prelude.{false, String, none, some, List, [], ◌∷◌, Dict, if◌then◌else◌}
use xcat.Db.{Node, index_error, Result, ok, err, Action, pure, raise, ◌>>=◌, ◌>>◌}
use xcat.Db.Nodes.{Changes, save_nodes}
use xcat.Task.{with_task}
use xcat.Conductor.{
  Conductor, deploy_done, bind, lift, Finish, raised, returned, unfinished, process_nodes_worker,
  fill_result,
}
use xcat.Conductor.Provision.{Deployer, get_boot_plugin, no_changes, updates}

abbrev pub ended : Result (Unit {0}) → Finish
ended (ok _) = returned none
ended (err e) = raised e

-- How `_clean` ends: the boot plugin, then the base image plugin.
pub clean_work : Deployer → Node → Result (Unit {0})
unfolding get_boot_plugin
clean_work d node =
    bind (get_boot_plugin d node) λ boot. bind (boot.clean node) λ _. d.base.clean node

-- What `_clean` has assigned to the node where it ends: the state after the boot plugin, the
-- affinity after the image plugin.
pub clean_changes : Deployer → Node → Changes
unfolding get_boot_plugin
clean_changes d node = elim (bind (get_boot_plugin d node) λ boot. boot.clean node) [
  | err e ↦ no_changes
  | ok _ ↦ elim (d.base.clean node) [
    | err e ↦ record no_changes { state = some none }
    | ok _ ↦ record no_changes { state = some none; conductor_affinity = some none }
  ]
]

-- `except Exception as e: result = dict(); utils.fill_result(result, names, e.message)`
abbrev pub or_fill_all : Conductor → List String → Action (Dict String) → Action (Dict String)
or_fill_all c names m db =
    let (r, db') = m db in
    elim r [ ok result ↦ (ok result, db') | err e ↦ (ok (fill_result [] names (c.text e)), db') ]

-- The body of the task of clean. `partial` is what a thread that is not done when the wait ends has
-- assigned by then.
unfoldable pub clean_body :
    Deployer → (Node → Changes) → List String → List Node → Action (Dict String)
unfolding process_nodes_worker clean_work clean_changes
clean_body d partial names rows = or_fill_all d.conductor names do
  result ← lift (
      process_nodes_worker d.conductor
        (λ node. if d.conductor.in_time node then ended (clean_work d node) else unfinished) rows)
  save_nodes d.conductor.env.engine (
      updates (λ node. if d.conductor.in_time node then clean_changes d node else partial node)
        rows)
  pure result

-- ConductorManager.clean
unfoldable pub clean : Deployer → (Node → Changes) → List String → Action (Dict String)
unfolding clean_body
clean d partial names = with_task d.conductor.env names false (clean_body d partial names)

abbrev done_changes : Changes
done_changes = record no_changes { state = some (some deploy_done); conductor_affinity = some none }

-- The body of the task of provision_callback, on `task.nodes[0]`.
pub callback_body : Deployer → List Node → Action (Unit {0})
unfolding get_boot_plugin
callback_body d [] = raise index_error
callback_body d (node ∷ _) = do
  boot ← lift (get_boot_plugin d node)
  lift (boot.continue_deploy node)
  lift (d.base.clean node)
  save_nodes d.conductor.env.engine ((node.id, done_changes) ∷ [])

-- ConductorManager.provision_callback
pub provision_callback : Deployer → String → Action (Unit {0})
unfolding callback_body
provision_callback d n = with_task d.conductor.env (n ∷ []) false (callback_body d)
