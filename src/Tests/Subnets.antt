-- ===== src/Tests/Subnets.antt =====
-- Two hosts of the network service, of which one is in the network of the installation.
use xcat.Prelude.{◌≡◌, refl, true, String, ◌==◌, some, [], ◌∷◌, if◌then◌else◌}
use xcat.Db.{Db, attribute_error, ok, err}
use xcat.Dhcp.{Templates, build_conf, contents_of}
use xcat.Network.{
  Host, SubnetOpts, NetworkManager, restart_dhcp, add_subnets, subnet_opts, get_devices_in_network,
  device_in_network, any_in_network, get_topic_for, status,
}
use xcat.Network.Support.{supports, serves, topic_or_none, get_topic_for-reaches}
use xcat.Prelude.{find_where, none}
use xcat.Tests.{tables, first_host, second_host}

abbrev templates : Templates SubnetOpts
templates = record {
  conf_path = "dhcpd.conf" ∷ [];
  lease_path = "dhcpd.leases" ∷ [];
  global_cfg = "";
  render_subnet = λ o. o.subnet;
}

-- Only the host `g` has an interface.
abbrev hosts : String → Host
hosts name = record {
  devices =
      if name == "g"
      then record { name = "eth0"; devices_ips = some ("10.0.0.1" ∷ []) } ∷ []
      else [];
  address_in_network = λ addr network netmask. ok true;
  net_bits = λ netmask. ok 24;
}

abbrev stopped : NetworkManager
stopped = record { opts = []; files = [] }

-- The tables with no record of a node
abbrev fresh : Db
fresh = record tables { dhcp = [] }

h-restarted : (restart_dhcp templates (hosts "h") (λ files. ok tt) fresh stopped).0 ≡ ok tt
unfolding restart_dhcp add_subnets get_devices_in_network build_conf contents_of
h-restarted = refl

g-restarted : (restart_dhcp templates (hosts "g") (λ files. ok tt) fresh stopped).0 ≡ ok tt
unfolding restart_dhcp add_subnets get_devices_in_network device_in_network any_in_network
    subnet_opts build_conf contents_of
g-restarted = refl

-- A dhcpd that could not be started leaves a stale pid file.
stale-status : status (some 5) none ≡ err attribute_error
unfolding status
stale-status = refl

get_topic_for-reaches_example :
    get_topic_for "network"
      (supports templates hosts
        (λ name files. ok tt)
        fresh
        (λ name. stopped)
        (λ name. some 5)
        (λ name. some 5)
        1)
      (first_host ∷ second_host ∷ [])
    ≡ topic_or_none templates hosts
        (λ name files. ok tt)
        fresh
        (λ name. stopped)
        (λ name. some 5)
        (λ name. some 5)
        "network"
        (find_where
          (serves templates hosts
            (λ name files. ok tt)
            fresh
            (λ name. stopped)
            (λ name. some 5)
            (λ name. some 5)
            1)
          (first_host ∷ second_host ∷ []))
unfolding status
get_topic_for-reaches_example =
    get_topic_for-reaches templates hosts (λ name files. ok tt) fresh (λ name. stopped)
      (λ name. some 5) (λ name. some 5) "network" 1 (first_host ∷ second_host ∷ [])
      (h-restarted, refl, (g-restarted, refl, tt))
