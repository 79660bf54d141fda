-- ===== src/Conductor/Boot.antt =====
-- ConductorManager.get_boot_device and set_boot_device of xcat3/conductor/manager.py.
use xcat.Prelude.{true, false, String, Option, none, List, Dict}
use xcat.Db.{Node, Result, ok, Action}
use xcat.Task.{with_task}
use xcat.Conductor.{Conductor, get_control_plugin, bind, future, process_nodes_worker, lift}

-- `_get_boot_device`
pub get_boot_work : Conductor → Node → Result (Option String)
unfolding get_control_plugin
get_boot_work c node =
    bind (get_control_plugin c node)
      λ plugin. bind (plugin.validate node) λ _. plugin.get_boot_device node

-- ConductorManager.get_boot_device, under a shared lock
pub get_boot_device : Conductor → List String → Action (Dict String)
unfolding process_nodes_worker get_boot_work
get_boot_device c names =
    with_task c.env names true
      λ rows. lift (process_nodes_worker c (future c (get_boot_work c)) rows)

-- `_set_boot_device`; the plugin's call returns None.
pub set_boot_work : Conductor → String → Node → Result (Option String)
unfolding get_control_plugin
set_boot_work c device node = bind (get_control_plugin c node) λ plugin.
    bind (plugin.validate node) λ _. bind (plugin.set_boot_device node device) λ _. ok none

-- ConductorManager.set_boot_device
pub set_boot_device : Conductor → List String → String → Action (Dict String)
unfolding process_nodes_worker set_boot_work
set_boot_device c names device =
    with_task c.env names false
      λ rows. lift (process_nodes_worker c (future c (set_boot_work c device)) rows)
