-- ===== src/Network.antt =====
-- The network service: xcat3/network/manager.py, with the interfaces of xcat3/common/ip_lib.py, and
-- its client xcat3/network/rpcapi.py.
pub mod Lifecycle
pub mod Support
use xcat.Prelude.{
  ℕ, Bool, true, false, not, ◌&&◌, ◌||◌, String, ◌==◌, Option, none, some, List, [], ◌∷◌, ◌++◌, map,
  if◌then◌else◌, eqb, is_empty,
}
use xcat.Db.{
  Service, Db, Error, attribute_error, value_error, type_error, index_error, no_valid_host, Result,
  ok, err,
}
use xcat.Db as Rows
use xcat.Db.Dhcp.{Opts}
use xcat.Dispatch.{topic_of}
use xcat.Dhcp.{Templates, build_conf}
use xcat.Pxe.Tree.{Files}

-- IPDevice: its name, and the addresses that netifaces tells, or None where it raises
pub record IpDevice : Type 0 where
  pub name : String
  pub devices_ips : Option (List String)

-- A host: its interfaces, and what the packages ipaddress and netaddr say of an address in a network
-- and of the bits of a netmask
pub record Host : Type 0 where
  pub devices : List IpDevice
  pub address_in_network : String → String → Option String → Result Bool
  pub net_bits : Option String → Result ℕ

unfoldable pub any_in_network : Host → String → Option String → List String → Result Bool
any_in_network h network netmask [] = ok false
any_in_network h network netmask (addr ∷ addresses) =
    let rest = any_in_network h network netmask addresses in
    elim (h.address_in_network addr network netmask) [
      | err e ↦ err e
      | ok inside ↦ if inside then ok true else rest
    ]

-- IPDevice.device_in_network; None cannot be iterated.
unfoldable pub device_in_network : Host → String → Option String → IpDevice → Result Bool
unfolding any_in_network
device_in_network h network netmask d = elim (d.devices_ips) [
  | none ↦ err type_error
  | some addresses ↦ any_in_network h network netmask addresses
]

abbrev is_value_error : Error → Bool
is_value_error value_error = true
is_value_error _ = false

-- IPWrapper.get_devices_in_network: a ValueError is logged.
unfoldable pub get_devices_in_network :
    Host → String → Option String → List IpDevice → Result (List IpDevice)
unfolding device_in_network
get_devices_in_network h subnet netmask [] = ok []
get_devices_in_network h subnet netmask (d ∷ ds) =
    let rest = get_devices_in_network h subnet netmask ds in
    elim (device_in_network h subnet netmask d) [
      | err e ↦ if is_value_error e then rest else err e
      | ok inside ↦ if inside then (elim rest [ err e ↦ err e | ok more ↦ ok (d ∷ more) ]) else rest
    ]

-- `opts` of _restart_dhcp
pub record SubnetOpts : Type 0 where
  pub nic : String
  pub subnet : String
  pub netmask : Option String
  pub netbits : ℕ
  pub conductor : String
  pub router : String
  pub domain_name : Option String
  pub domain_name_servers : Option String
  pub subnet_id : ℕ

-- `network.gateway or nic_ip`
abbrev or_ip : Option String → String → String
or_ip none ip = ip
or_ip (some g) ip = if g == "" then ip else g

abbrev first_ip : Option (List String) → Result String
first_ip none = err type_error
first_ip (some []) = err index_error
first_ip (some (ip ∷ ips)) = ok ip

unfoldable pub subnet_opts : Host → Rows.Network → IpDevice → Result SubnetOpts
subnet_opts h n d = elim (first_ip d.devices_ips) [
  | err e ↦ err e
  | ok nic_ip ↦ elim (h.net_bits n.netmask) [
    | err e ↦ err e
    | ok bits ↦ ok (record {
      nic = d.name;
      subnet = n.subnet;
      netmask = n.netmask;
      netbits = bits;
      conductor = nic_ip;
      router = or_ip n.gateway nic_ip;
      domain_name = n.domain;
      domain_name_servers = n.nameservers;
      subnet_id = n.id;
    })
  ]
]

-- The loop of _restart_dhcp over the networks, which appends to the options of the DHCP service.
unfoldable pub add_subnets :
    Host → List Rows.Network → List SubnetOpts → Result (Unit {0}) × List SubnetOpts
unfolding subnet_opts get_devices_in_network
add_subnets h [] opts = (ok tt, opts)
add_subnets h (n ∷ networks) opts = elim (get_devices_in_network h n.subnet n.netmask h.devices) [
  | err e ↦ (err e, opts)
  | ok ifaces ↦ elim ifaces [
    | [] ↦ add_subnets h networks opts
    | d ∷ ds ↦ elim (subnet_opts h n d) [
      | err e ↦ (err e, opts)
      | ok o ↦ add_subnets h networks (opts ++ o ∷ [])
    ]
  ]
]

-- NetworkManager, as far as its methods change it
pub record NetworkManager : Type 0 where
  pub opts : List SubnetOpts
  pub files : Files

-- NetworkManager._restart_dhcp, where `daemon` is what stopping and starting dhcpd on the files gives
unfoldable pub restart_dhcp :
    Templates SubnetOpts
    → Host
    → (Files → Result (Unit {0}))
    → Db
    → NetworkManager
    → Result (Unit {0}) × NetworkManager
unfolding add_subnets build_conf
restart_dhcp t h daemon db m =
    let (r, opts) = add_subnets h db.networks [] in
    elim r [
      | err e ↦ (err e, record m { opts = opts })
      | ok _ ↦
          let (written, files) = build_conf t opts db.dhcp m.files in
          (
            elim written [ err e ↦ err e | ok _ ↦ daemon files ],
            record { opts = opts; files = files },
          )
    ]

-- NetworkManager.enable_dhcp_option
unfoldable pub enable_dhcp_option :
    Templates SubnetOpts
    → (Files → Result (Unit {0}))
    → Db
    → NetworkManager
    → Result (Unit {0}) × NetworkManager
unfolding build_conf
enable_dhcp_option t daemon db m =
    let (written, files) = build_conf t m.opts db.dhcp m.files in
    (elim written [ err e ↦ err e | ok _ ↦ daemon files ], record m { files = files })

unfoldable pub has_subnet : ℕ → List SubnetOpts → Bool
has_subnet i [] = false
has_subnet i (o ∷ opts) = let rest = has_subnet i opts in if eqb o.subnet_id i then true else rest

-- ISCDHCPService.status, for the number in the pid file, if it can be read, and the pid of `dhcp_pobj`,
-- which is None where dhcpd could not be started
unfoldable pub status : Option ℕ → Option ℕ → Result Bool
status none dhcp_pobj = ok false
status (some pid) none = err attribute_error
status (some pid) (some own) = ok (eqb pid own)

-- NetworkManager.check_support, for what status gives, and the id of the subnet
unfoldable pub check_support : Result Bool → NetworkManager → Option ℕ → Result Bool
unfolding has_subnet
check_support running m subnet = if is_empty m.opts then ok false else elim running [
  | err e ↦ err e
  | ok up ↦ ok (if up then (elim subnet [ none ↦ true | some i ↦ has_subnet i m.opts ]) else false)
]

-- NetworkAPI.broadcast: the topics to which `restart_dhcp` is cast
unfoldable pub broadcast : String → List Service → List String
broadcast topic services = map (λ (s : Service). topic_of topic s.hostname) services

-- The loop of get_topic_for over the services
unfoldable pub first_topic : String → (String → Result Bool) → List Service → Result String
first_topic topic check [] = err no_valid_host
first_topic topic check (s ∷ services) =
    let rest = first_topic topic check services in
    elim (check s.hostname) [
      | err e ↦ err e
      | ok yes' ↦ if yes' then ok (topic_of topic s.hostname) else rest
    ]

-- NetworkAPI.get_topic_for, where `check` is the call of check_support on a host
unfoldable pub get_topic_for : String → (String → Result Bool) → List Service → Result String
unfolding first_topic
get_topic_for topic check services =
    if is_empty services then err no_valid_host else first_topic topic check services
