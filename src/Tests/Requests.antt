-- ===== src/Tests/Requests.antt =====
-- Requests to a conductor of the installation, and to a BMC.
use mathlib.Core.Option
use xcat.Prelude.{
  inl, inr, ℕ, ◌≡◌, refl, ap, true, String, ◌==◌, none, some, List, [], ◌∷◌, Dict, lookup,
  find_where, eqb, is_text, if◌then◌else◌, Bool-cases, eq_iff, sym,
}
use xcat.Db.{OsImage, Node, ipmi_failure, ok, err, session_for_write}
use xcat.Db.Nodes.{has_id, has_name, destroy_nodes, save_nodes, apply_updates}
use xcat.Db.Dhcp.{destroy_dhcp, save_or_update_dhcp, update_rows}
use xcat.Conductor.{Finish, returned, unfinished, reply, process_nodes_worker}
use xcat.Conductor.Workers.{lookup-process_nodes_worker}
use xcat.Conductor.Destroy.{destroy_body, destroy_body-deletes, destroy_body-drops_dhcp}
use xcat.Conductor.Clean.{clean}
use xcat.Conductor.Provision.{
  BootPlugin, OsPlugin, Deployer, get_boot_plugin, get_osimage_plugin, provision_work,
  collect_images, ensure_osimages, config_of, configs_of, record_deployment, provision_body,
  provision, no_changes,
}
use xcat.Conductor.Provision.Effects.{provision_body-keeps}
use xcat.Conductor.Locks.{RestoresLocks, provision-RestoresLocks, clean-RestoresLocks}
use xcat.Ipmi.{Pyghmi, powered, exchange, switch, set_power_state, set_boot_device}
use xcat.Ipmi.Laws.{set_power_state-agrees}
use xcat.Tests.{
  rolling_back, rolling_back_lem, deploying, tables, tables-UniqueNames, retrying-IsRetry,
  conductor,
}
use xcat.Tests.Locks.{Waited-tables}

-- The thread of the node `b` does not end.
abbrev finish : Node → Finish
finish r = if eqb r.id 1 then returned (some "on") else unfinished

answers :
    process_nodes_worker conductor finish tables.nodes ≡ ok (("a", "on") ∷ ("b", "timeout") ∷ [])
unfolding process_nodes_worker
answers = refl

lookup-process_nodes_worker_example :
    lookup "b" (("a", "on") ∷ ("b", "timeout") ∷ [])
    ≡ Option.map (λ r. reply conductor (finish r)) (find_where (has_name "b") tables.nodes)
lookup-process_nodes_worker_example =
    lookup-process_nodes_worker conductor finish tables.nodes "b"
      (("a", "on") ∷ ("b", "timeout") ∷ []) tables-UniqueNames answers

abbrev names : List String
names = "a" ∷ "b" ∷ []

abbrev destroyed : Dict String
destroyed = ("b", "Can not delete node in deploying state") ∷ ("a", "deleted") ∷ []

a-destroyed : (destroy_body rolling_back names tables.nodes tables).0 ≡ ok destroyed
unfolding destroy_body destroy_nodes destroy_dhcp session_for_write
a-destroyed = refl

destroy_body-deletes_example :
    find_where (has_id 1) (destroy_body rolling_back names tables.nodes tables).1.nodes ≡ none
destroy_body-deletes_example =
    destroy_body-deletes rolling_back names tables.nodes tables destroyed 1 refl a-destroyed

-- The node `b` stays and its record goes.
destroy_body-drops_dhcp_example :
    lookup "b" (destroy_body rolling_back names tables.nodes tables).1.dhcp ≡ none
destroy_body-drops_dhcp_example =
    destroy_body-drops_dhcp rolling_back names tables.nodes tables destroyed "b" refl a-destroyed

abbrev pub image : OsImage
image = record {
  id = 7;
  name = "u";
  distro = "Ubuntu-Server";
  ver = "16";
  arch = "x";
  orig_name = none;
  profile = none;
  provmethod = none;
  rootfstype = none;
}

-- The boot plugin takes the node `a` only.
abbrev pub boot : BootPlugin
boot = record {
  validate = λ node. if eqb node.id 1 then ok tt else err ipmi_failure;
  gen_dhcp_opts = λ node. ok (("ip", "x") ∷ ("mac", "m") ∷ ("hostname", "a") ∷ []);
  build_boot_conf = λ node boot_str img. ok tt;
  continue_deploy = λ node. ok tt;
  clean = λ node. ok tt;
}

abbrev pub os : OsPlugin
os = record {
  validate = λ node img. ok tt;
  build_os_boot_str = λ node img. ok "linux";
  build_template = λ node img. ok tt;
  clean = λ node. ok tt;
}

abbrev pub deployer : Deployer
deployer = record {
  conductor = conductor;
  pxe = boot;
  petitboot = boot;
  base = os;
  ubuntu = os;
  rhels = os;
  images = image ∷ [];
  ensure_osimage = λ img. ok tt;
  build_supersede = λ opts. ok "";
  render = λ opts. "host";
}

abbrev provisioned : Dict String
provisioned = ("a", "ok") ∷ ("b", "failed") ∷ []

a-provisioned : (provision_body deployer "deploying" none tables.nodes tables).0 ≡ ok provisioned
unfolding provision_body provision_work get_boot_plugin get_osimage_plugin collect_images
    ensure_osimages config_of configs_of record_deployment process_nodes_worker save_nodes
    apply_updates save_or_update_dhcp update_rows session_for_write
a-provisioned = refl

provision_body-keeps_example :
    find_where (has_id 2) (provision_body deployer "deploying" none tables.nodes tables).1.nodes
    ≡ some deploying
provision_body-keeps_example =
    provision_body-keeps deployer "deploying" none tables.nodes tables provisioned 2 "b"
      rolling_back_lem ((λ e. cc), ((λ e. refl), tt)) a-provisioned refl

provision-RestoresLocks_example :
    RestoresLocks deployer rolling_back_lem names tables
      (provision deployer names "deploying" none tables).1
provision-RestoresLocks_example =
    provision-RestoresLocks deployer rolling_back_lem retrying-IsRetry 1 tables refl Waited-tables
      names "deploying" none

clean-RestoresLocks_example :
    RestoresLocks deployer rolling_back_lem names tables
      (clean deployer (λ node. no_changes) names tables).1
clean-RestoresLocks_example =
    clean-RestoresLocks deployer rolling_back_lem retrying-IsRetry 1 tables refl Waited-tables
      (λ node. no_changes) names

-- A BMC that is on, before and after it is told to boot from its disk.
abbrev bmc : Pyghmi
bmc = record {
  command = λ address username password. some 5;
  get_power = λ session. some (("powerstate", "on") ∷ []);
  set_power = λ session target. some (("powerstate", "") ∷ ("pendingpowerstate", target) ∷ []);
  get_bootdev = λ session. some (("bootdev", "network") ∷ []);
  set_bootdev = λ session hdev. if hdev == "hd" then some [] else none;
  logout = λ session. some tt;
}

abbrev bmc_later : Pyghmi
bmc_later = record bmc { get_bootdev = λ session. some (("bootdev", "hd") ∷ []) }

turned-on : set_power_state bmc [] "on" ≡ ok tt
unfolding set_power_state switch exchange
turned-on = refl

set_power_state-agrees_example :
    (session : ℕ) × (ret : Dict String) × (bmc.set_power session "on" ≡ some ret)
    × (is_text (powered ret) "on" ≡ true)
set_power_state-agrees_example = set_power_state-agrees bmc [] "on" (inl refl) turned-on

disk-set : set_boot_device bmc [] "disk" ≡ ok tt
unfolding set_boot_device exchange
disk-set = refl

disk-remembered :
    (s : ℕ) (hdev : String) (ret : Dict String)
    → bmc.set_bootdev s hdev ≡ some ret
    → bmc_later.get_bootdev 5 ≡ some (("bootdev", hdev) ∷ [])
disk-remembered s hdev ret h = elim (Bool-cases (hdev == "hd")) [
  | inl disk ↦ ap (λ d. some (("bootdev", d) ∷ [])) (sym ((eq_iff hdev "hd").0 disk))
  | inr other ↦ let e : none ≡ some ret = rw other at h in cc
]
