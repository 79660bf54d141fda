-- ===== src/Tests/Provisioning.antt =====
-- A request that deploys two nodes with two conductors and a network service.
use xcat.Prelude.{◌≡◌, refl, true, false, String, none, List, [], ◌∷◌, contains}
use xcat.Db.{Service, Db, ok, session_for_write}
use xcat.Task.Locks.{locks}
use xcat.Task.{with_task, acquire, exit, lock, release_resources}
use xcat.Db.Nodes.{
  get_node_in, reserve_nodes, release_nodes, raise_first_locked, save_nodes, apply_updates,
}
use xcat.Db.Tables.{get_by_key}
use xcat.Db.Dhcp.{save_or_update_dhcp, update_rows}
use xcat.Dispatch.{
  spawn_rpc_worker, get_topic_for, assign_from, spawn_topics, spawn_worker, groups, groups_from,
  submit, topic_of,
}
use xcat.Db.Services.{get_services}
use xcat.Network as Services
use xcat.Conductor.Provision.{
  provision, provision_body, provision_work, get_boot_plugin, get_osimage_plugin, collect_images,
  ensure_osimages, config_of, configs_of, record_deployment,
}
use xcat.Conductor.{process_nodes_worker}
use xcat.Conductor.Provision.{no_changes}
use xcat.Api.{Reply, filter_unavailable_nodes, wait_rpc_result, collect_all, collect, expire}
use xcat.Api.Remote.{Cluster, send, run_calls, handle, started}
use xcat.Api.Provision.{
  any_subnet, Server, plain, enable_dhcp_option, finish, deploy, put_target, put,
}
use xcat.Api.Provision.Told.{put-enabled}
use xcat.Api.Provision.Locks.{IsCalm, put-locks}
use xcat.Tests.{
  first_host, rolling_back, rolling_back_lem, retrying-IsRetry, tables, tables-UniqueNames,
}
use xcat.Tests.Requests.{deployer}

abbrev network_host : Service
network_host = record first_host { id = 6; type = "network" }

abbrev site : Db
site = record tables { services = network_host ∷ tables.services }

abbrev cluster : Cluster
cluster = record {
  accepts = λ names. true;
  items = λ topics. topics;
  per_group_count = 2;
  topic = "conductor";
  now = 20;
  heartbeat_timeout = 60;
  engine = rolling_back;
  show = λ i. "3";
  deployer = λ topic m. deployer;
  partial = λ topic node. no_changes;
  in_time = λ topic names. true;
  code = λ e. none;
}

abbrev server : Server
server = record {
  cluster = cluster;
  network_topic = "network";
  check_support = λ subnet host. ok true;
  enable_dhcp = λ topic db. ok tt;
  timeout_text = "timeout";
  exception_text = λ e. "failed";
}

abbrev names : List String
names = "a" ∷ "c" ∷ []

abbrev told : Reply
told = plain (("c", "Could not be found.") ∷ ("a", "ok") ∷ [])

a-asked : contains (filter_unavailable_nodes names false site).1 "a" ≡ true
unfolding filter_unavailable_nodes get_node_in
a-asked = refl

a-deployed : (put server "deploying" none none names site).0 ≡ ok told
unfolding get_services put put_target deploy finish enable_dhcp_option send run_calls handle
    filter_unavailable_nodes wait_rpc_result collect_all collect expire spawn_rpc_worker
    get_topic_for Services.get_topic_for Services.first_topic topic_of raise_first_locked
    assign_from spawn_topics spawn_worker groups groups_from submit provision provision_body
    provision_work get_boot_plugin get_osimage_plugin collect_images ensure_osimages config_of
    configs_of record_deployment process_nodes_worker save_nodes apply_updates save_or_update_dhcp
    update_rows session_for_write with_task acquire exit lock release_resources reserve_nodes
    release_nodes get_node_in get_by_key started
a-deployed = refl

calm : IsCalm deployer
calm = record {
  rollback = rolling_back_lem;
  law = retrying-IsRetry;
  attempts = 1;
  tries = refl;
  alone = λ k db. refl;
}

put-locks_example : locks (put server "deploying" none none names site).1.nodes ≡ locks site.nodes
put-locks_example =
    put-locks server (λ topic m. calm) "deploying" none none names site tables-UniqueNames

put-enabled_example :
    enable_dhcp_option server any_subnet (put server "deploying" none none names site).1 ≡ ok tt
put-enabled_example =
    put-enabled server (λ e h. cc) "deploying" none none names "a" told site a-asked a-deployed refl
