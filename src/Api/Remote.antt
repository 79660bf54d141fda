-- ===== src/Api/Remote.antt =====
-- The methods of class ConductorAPI in xcat3/conductor/rpcapi.py, with what the conductors do that they
-- call. The calls of a request run one after the other, in the order in which they are made.

use xcat.Prelude.{ℕ, Bool, true, String, Option, some, List, [], ◌∷◌, Dict, if◌then◌else◌}
use xcat.Db.{Node, OsImage, Passwd, Network, Service, Db, Error, Result, ok, err, Action, Engine}
use xcat.Db.Services.{get_services}
use xcat.Db.Dhcp.{destroy_dhcp}
use xcat.Db.Nodes.{Changes}
use xcat.Dispatch.{Items, spawn_rpc_worker}
use xcat.Dispatch.Affinity.{spawn_affinity_worker}
use xcat.Conductor as Manager
use xcat.Conductor.Boot as Boot
use xcat.Conductor.Destroy as Destroy
use xcat.Conductor.Provision as Provision
use xcat.Conductor.Provision.{Deployer}
use xcat.Conductor.Clean as Clean
use xcat.Api.{RpcFuture, replied, failed, pending}

-- An RPC method of the conductors with its arguments, the names of the nodes aside
pub data Method : Type 0 where
  change_power_state : String → Method
  get_power_state : Method
  destroy_nodes : Method
  provision : String → Option OsImage → Passwd → Option Network → Method
  clean : Method
  get_boot_device : Method
  set_boot_device : String → Method

-- The process that makes the calls: its executor, the order of its dicts, CONF.api.per_group_count, the topic, the time and
-- CONF.heartbeat_timeout, its database, and how a number is shown. The conductors: the one that listens
-- on a topic, with plugins that know the password and the subnet of a request, what a thread of it that
-- is not done has assigned, whether the reply of a call comes in time, and the code of an exception.
pub record Cluster : Type 0 where
  pub accepts : List String → Bool
  pub items : Items
  pub per_group_count : ℕ
  pub topic : String
  pub now : ℕ
  pub heartbeat_timeout : ℕ
  pub engine : Engine
  pub show : ℕ → String
  pub deployer : String → Method → Deployer
  pub partial : String → Node → Changes
  pub in_time : String → List String → Bool
  pub code : Error → Option ℕ

-- What ConductorManager does for a method
unfoldable pub handle : Deployer → (Node → Changes) → Method → List String → Action (Dict String)
handle d partial (change_power_state target) names =
    Manager.change_power_state d.conductor names target
handle d partial get_power_state names = Manager.get_power_state d.conductor names
handle d partial destroy_nodes names = Destroy.destroy_nodes d.conductor names
handle d partial (provision target osimage passwd subnet) names =
    Provision.provision d names target osimage
handle d partial clean names = Clean.clean d partial names
handle d partial get_boot_device names = Boot.get_boot_device d.conductor names
handle d partial (set_boot_device device) names = Boot.set_boot_device d.conductor names device

module _ (c : Cluster) where
  -- A future, where its call gives `r`
  abbrev pub future_of : Deployer → String → List String → Result (Dict String) → RpcFuture
  future_of d topic names r = record {
    nodes = some names;
    outcome =
        if c.in_time topic names
        then (elim r [
          | ok answers ↦ replied answers
          | err e ↦ failed (d.conductor.text e) (c.code e)
        ])
        else pending;
  }

  unfoldable pub run_calls : Method → List (String × List String) → Db → List RpcFuture × Db
  unfolding handle
  run_calls m [] db = ([], db)
  run_calls m ((topic, names) ∷ calls) db =
      let d = c.deployer topic m in
      let (r, db') = handle d (c.partial topic) m names db in
      let (futures, db'') = run_calls m calls db' in (future_of d topic names r ∷ futures, db'')

  -- The calls that have been made before the executor rejects one
  unfoldable pub started : List (String × List String) → List (String × List String)
  started [] = []
  started ((topic, names) ∷ calls) =
      let rest = started calls in if c.accepts names then (topic, names) ∷ rest else []

  abbrev pub conductors : Db → List Service
  conductors db = get_services c.now c.heartbeat_timeout "conductor" true db

  -- The calls of spawn_rpc_worker, also where it raises in the end
  abbrev pub rpc_calls : List String → Db → List (String × List String)
  rpc_calls names db =
      elim (spawn_rpc_worker c.items (λ _. true) c.per_group_count c.topic (conductors db) names) [
        | err e ↦ []
        | ok calls ↦ started calls
      ]

  -- The calls of spawn_affinity_worker
  abbrev pub affinity_calls : List String → Dict String → Db → List (String × List String)
  affinity_calls names result db =
      elim (spawn_affinity_worker c.items (λ _. true) c.per_group_count c.show c.topic
        (conductors db) names result db) [ err e ↦ [] | ok v ↦ started v.0 ]

  -- A method that gives its names to spawn_rpc_worker. Calls that were made before a rejection run too.
  unfoldable pub send : Method → List String → Action (List RpcFuture)
  unfolding run_calls
  send m names db =
      let (futures, db') = run_calls m (rpc_calls names db) db in
      (
        elim (spawn_rpc_worker c.items c.accepts c.per_group_count c.topic (conductors db) names) [
          | err e ↦ err e
          | ok calls ↦ ok futures
        ],
        db',
      )

  -- ConductorAPI.clean: the futures, and `result['nodes']`. The DHCP records go first.
  unfoldable pub send_clean : Dict String → List String → Action (List RpcFuture × Dict String)
  unfolding run_calls
  send_clean result names db =
      let (dropped, db1) = destroy_dhcp c.engine names db in
      let (futures, db2) = run_calls clean (affinity_calls names result db1) db1 in
      let spawned =
        spawn_affinity_worker c.items c.accepts c.per_group_count c.show c.topic (conductors db1)
          names result db1 in
      elim dropped [
        | err e ↦ (err e, db1)
        | ok _ ↦ (elim spawned [ err e ↦ err e | ok v ↦ ok (futures, v.1) ], db2)
      ]

  -- ConductorAPI.change_power_state
  abbrev pub send_change_power_state : List String → String → Action (List RpcFuture)
  send_change_power_state names target = send (change_power_state target) names

  -- ConductorAPI.get_power_state
  abbrev pub send_get_power_state : List String → Action (List RpcFuture)
  send_get_power_state = send get_power_state

  -- ConductorAPI.destroy_nodes
  abbrev pub send_destroy_nodes : List String → Action (List RpcFuture)
  send_destroy_nodes = send destroy_nodes

  -- ConductorAPI.provision
  abbrev pub send_provision :
      List String → String → Option OsImage → Passwd → Option Network → Action (List RpcFuture)
  send_provision names target osimage passwd subnet =
      send (provision target osimage passwd subnet) names

  -- ConductorAPI.get_boot_device
  abbrev pub send_get_boot_device : List String → Action (List RpcFuture)
  send_get_boot_device = send get_boot_device

  -- ConductorAPI.set_boot_device
  abbrev pub send_set_boot_device : List String → String → Action (List RpcFuture)
  send_set_boot_device names device = send (set_boot_device device) names
