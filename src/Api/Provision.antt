-- ===== src/Api/Provision.antt =====
-- NodeProvisionController.put of xcat3/api/controllers/v1/node.py: nodes are deployed or cleaned by the
-- conductors, and the network service is told of it. NetworkAPI.enable_dhcp_option is that of
-- xcat3/network/rpcapi.py.
pub mod Locks
pub mod Told
use text.Mathlib.Text.{starts_with}
use xcat.Prelude.{
  ℕ, Bool, true, false, String, Option, none, some, List, [], ◌∷◌, Dict, if◌then◌else◌, is_empty,
}
use xcat.Db.{
  OsImage, Passwd, Network, Db, Error, passwd_not_found, invalid_parameter, Result, ok, err, Action,
}
use xcat.Db.Services.{get_services}
use xcat.Db.Tables.{get_by_key, networks, images, passwds}
use xcat.Network as Services
use xcat.Conductor.{bind, fill_result}
use xcat.Api.{Reply, filter_unavailable_nodes, wait_rpc_result}
use xcat.Api.Remote.{Cluster, send_provision, send_clean}

-- What put passes on for its argument `subnet`: the network, or the text itself where it cleans
pub data Subnet : Type 0 where
  any_subnet : Subnet
  network_object : Network → Subnet
  network_name : String → Subnet

-- An API server with its conductors, the topic of the network services, what the calls of check_support
-- and enable_dhcp_option give on a host and on a topic, and the texts of a timeout and of an exception.
pub record Server : Type 0 where
  pub cluster : Cluster
  pub network_topic : String
  pub check_support : Subnet → String → Result Bool
  pub enable_dhcp : String → Db → Result (Unit {0})
  pub timeout_text : String
  pub exception_text : Error → String

abbrev pub plain : Dict String → Reply
plain nodes = record { nodes = nodes; error = none; errorcode = none }

abbrev is_passwd_not_found : Error → Bool
is_passwd_not_found passwd_not_found = true
is_passwd_not_found _ = false

-- SYSTEM_KEY and DEFAULT_PASSWORD
abbrev pub default_passwd : Passwd
default_passwd = record {
  id = 0;
  key = "system";
  username = none;
  password = some "cluster";
  crypt_method = none;
}

-- The password of the key, or the default one
abbrev pub system_passwd : Db → Result Passwd
system_passwd db = elim (get_by_key passwds "system" db).0 [
  | ok p ↦ ok p
  | err e ↦ if is_passwd_not_found e then ok default_passwd else err e
]

abbrev pub named_or_none : {A : Type 0} → (String → Result A) → Option String → Result (Option A)
named_or_none find none = ok none
named_or_none find (some name) = elim (find name) [ err e ↦ err e | ok a ↦ ok (some a) ]

abbrev pub subnet_object : Option Network → Subnet
subnet_object none = any_subnet
subnet_object (some n) = network_object n

abbrev pub subnet_text : Option String → Subnet
subnet_text none = any_subnet
subnet_text (some name) = network_name name

-- The network, the image and the password of a request
abbrev pub arguments :
    Option String → Option String → Db → Result (Option Network × Option OsImage × Passwd)
arguments osimage subnet db =
    bind (named_or_none (λ name. (get_by_key networks name db).0) subnet) λ network.
      bind (named_or_none (λ name. (get_by_key images name db).0) osimage)
        λ image. bind (system_passwd db) λ passwd. ok (network, image, passwd)

module _ (s : Server) where
  -- NetworkAPI.enable_dhcp_option
  unfoldable pub enable_dhcp_option : Subnet → Db → Result (Unit {0})
  enable_dhcp_option subnet db =
      let services = get_services s.cluster.now s.cluster.heartbeat_timeout "network" true db in
      elim (Services.get_topic_for s.network_topic (s.check_support subnet) services) [
        | err e ↦ err e
        | ok topic ↦ s.enable_dhcp topic db
      ]

  -- What put does when the calls are made: it waits, and turns to the network service.
  unfoldable pub finish : List String → Subnet → Reply → Db → Result Reply
  unfolding enable_dhcp_option
  finish names subnet reply db = elim (enable_dhcp_option subnet db) [
    | ok _ ↦ ok reply
    | err e ↦ ok (record reply { nodes = fill_result reply.nodes names (s.exception_text e) })
  ]

  -- The conductors are called, and the network service after them.
  unfoldable pub deploy :
      String → Option Network × Option OsImage × Passwd → List String → Dict String → Action Reply
  unfolding finish
  deploy target (network, image, passwd) names result db =
      let (sent, db') = send_provision s.cluster names target image passwd network db in
      elim sent [
        | err e ↦ (err e, db')
        | ok futures ↦ elim (wait_rpc_result s.timeout_text futures (plain result)) [
          | err e ↦ (err e, db')
          | ok reply ↦ (finish names (subnet_object network) reply db', db')
        ]
      ]

  -- The branch that deploys: nothing has been called where an argument is not found.
  unfoldable pub put_target :
      String → Option String → Option String → List String → Dict String → Action Reply
  unfolding deploy
  put_target target osimage subnet names result db = elim (arguments osimage subnet db) [
    | err e ↦ (err e, db)
    | ok found ↦ deploy target found names result db
  ]

  -- The branch for a target that begins with `un_`
  unfoldable pub put_clean : Option String → List String → Dict String → Action Reply
  unfolding finish
  put_clean subnet names result db =
      let (sent, db') = send_clean s.cluster result names db in
      elim sent [
        | err e ↦ (err e, db')
        | ok (futures, result') ↦ elim (wait_rpc_result s.timeout_text futures (plain result')) [
          | err e ↦ (err e, db')
          | ok reply ↦ (finish names (subnet_text subnet) reply db', db')
        ]
      ]

  -- NodeProvisionController.put
  unfoldable pub put : String → Option String → Option String → List String → Action Reply
  unfolding put_target put_clean
  put target osimage subnet names db =
      let (result, available) = filter_unavailable_nodes names false db in
      let cleaned = put_clean subnet available result db in
      let deployed = put_target target osimage subnet available result db in
      if is_empty names
      then (err invalid_parameter, db)
      else if is_empty available
      then (ok (plain result), db)
      else if starts_with target "un_"
      then cleaned
      else deployed
