-- ===== src/Network/Support.antt =====
-- Which hosts support a subnet: restart_dhcp and check_support of xcat3/network/manager.py, and
-- get_topic_for of xcat3/network/rpcapi.py.
use xcat.Prelude.{
  ℕ, ◌≡◌, refl, Bool, true, false, not, ◌&&◌, ◌||◌, String, Option, none, some, List, [], ◌∷◌, ◌++◌,
  arith, inl, inr, Bool-cases, eqb, is_empty, find_where,
}
use xcat.Db.{Service, Db, no_valid_host, Result, ok, err, Result-cases}
use xcat.Db as Rows
use xcat.Dispatch.{topic_of}
use xcat.Dhcp.{Templates}
use xcat.Pxe.Tree.{Files}
use xcat.Network.{
  IpDevice, Host, SubnetOpts, NetworkManager, get_devices_in_network, subnet_opts, add_subnets,
  restart_dhcp, has_subnet, status, check_support, first_topic, get_topic_for,
}

abbrev some_device : Result (List IpDevice) → Bool
some_device (ok (d ∷ ds)) = true
some_device (ok []) = false
some_device (err e) = false

-- A network with that id is reached by an interface of the host.
abbrev pub reaches : Host → ℕ → List Rows.Network → Bool
reaches h i [] = false
reaches h i (n ∷ networks) =
    eqb n.id i && some_device (get_devices_in_network h n.subnet n.netmask h.devices)
    || reaches h i networks

has_subnet-append :
    (i : ℕ) (opts : List SubnetOpts) (o : SubnetOpts)
    → has_subnet i (opts ++ o ∷ []) ≡ (has_subnet i opts || eqb o.subnet_id i)
unfolding has_subnet
has_subnet-append i [] o = ground arith
has_subnet-append i (p ∷ opts) o = ground (arith, has_subnet-append i opts o)

subnet_opts-id :
    (h : Host) (n : Rows.Network) (d : IpDevice) (o : SubnetOpts)
    → subnet_opts h n d ≡ ok o
    → o.subnet_id ≡ n.id
unfolding subnet_opts
subnet_opts-id h n d o e = ground arith

add_subnets-has :
    (h : Host) (i : ℕ) (networks : List Rows.Network) (opts : List SubnetOpts)
    → (add_subnets h networks opts).0 ≡ ok tt
    → has_subnet i (add_subnets h networks opts).1 ≡ (has_subnet i opts || reaches h i networks)
unfolding add_subnets
add_subnets-has h i [] opts ran = ground arith
add_subnets-has h i (n ∷ networks) opts ran =
    elim (Result-cases (get_devices_in_network h n.subnet n.netmask h.devices)) [
      | inr (e, g) ↦ ground (arith, g)
      | inl ([], g) ↦ ground (arith, g, add_subnets-has h i networks opts)
      | inl (d ∷ ds, g) ↦ elim (Result-cases (subnet_opts h n d)) [
        | inr (e, k) ↦ ground (arith, g, k)
        | inl (o, k) ↦ ground (
          arith,
          g,
          k,
          subnet_opts-id h n d o k,
          has_subnet-append i opts o,
          add_subnets-has h i networks (opts ++ o ∷ []),
        )
      ]
    ]

has_subnet-empty :
    (i : ℕ) (opts : List SubnetOpts)
    → (not (is_empty opts) && has_subnet i opts) ≡ has_subnet i opts
unfolding has_subnet
has_subnet-empty i [] = refl
has_subnet-empty i (o ∷ opts) = refl

-- If restart_dhcp and status return, a host supports a subnet exactly if dhcpd runs and an interface of
-- the host is in a network with that id.
pub restart_dhcp-check_support :
    (t : Templates SubnetOpts) (h : Host) (daemon : Files → Result (Unit {0})) (db : Db)
    (m : NetworkManager) (running : Bool) (i : ℕ)
    → (restart_dhcp t h daemon db m).0 ≡ ok tt
    → check_support (ok running) (restart_dhcp t h daemon db m).1 (some i)
      ≡ ok (running && reaches h i db.networks)
unfolding restart_dhcp check_support
restart_dhcp-check_support t h daemon db m running i ran =
    ground (
      arith,
      add_subnets-has h i db.networks [],
      has_subnet-empty i (add_subnets h db.networks []).1,
    )

-- Every host of the network service: its interfaces, what its dhcpd does, its state before, and the pid
-- file and the pid of its dhcpd afterwards
module _ (t : Templates SubnetOpts) (host : String → Host)
    (daemon : String → Files → Result (Unit {0})) (db : Db) (before : String → NetworkManager)
    (pid_file dhcp_pobj : String → Option ℕ) where
  abbrev pub after : String → NetworkManager
  after name = (restart_dhcp t (host name) (daemon name) db (before name)).1

  -- Whether dhcpd runs, where status returns
  abbrev pub running : String → Bool
  running name = elim (status (pid_file name) (dhcp_pobj name)) [ ok up ↦ up | err e ↦ false ]

  abbrev pub Restarted : List Service → Type 0
  Restarted [] = Unit
  Restarted (s ∷ services) =
      ((restart_dhcp t (host s.hostname) (daemon s.hostname) db (before s.hostname)).0 ≡ ok tt)
      × (status (pid_file s.hostname) (dhcp_pobj s.hostname) ≡ ok (running s.hostname))
      × Restarted services

  abbrev pub serves : ℕ → Service → Bool
  serves i s = running s.hostname && reaches (host s.hostname) i db.networks

  abbrev pub topic_or_none : String → Option Service → Result String
  topic_or_none topic none = err no_valid_host
  topic_or_none topic (some s) = ok (topic_of topic s.hostname)

  abbrev pub supports : ℕ → String → Result Bool
  supports i name = check_support (status (pid_file name) (dhcp_pobj name)) (after name) (some i)

  first_topic-reaches :
      (topic : String) (i : ℕ) (services : List Service)
      → Restarted services
      → first_topic topic (supports i) services
        ≡ topic_or_none topic (find_where (serves i) services)
  unfolding first_topic
  first_topic-reaches topic i [] ran = refl
  first_topic-reaches topic i (s ∷ services) ran =
      let here =
        restart_dhcp-check_support t (host s.hostname) (daemon s.hostname) db (before s.hostname)
          (running s.hostname) i ran.0 in
      let (_, told, rest) = ran in
      elim (Bool-cases (serves i s)) [
        | inl yes' ↦ ground (arith, here, yes', told)
        | inr no' ↦ ground (arith, here, no', told, first_topic-reaches topic i services rest)
      ]

  -- If on every host of a network service the restart has returned and status returns, so that
  -- there is a dhcpd that was started or no readable pid file, get_topic_for gives the topic of
  -- the first whose dhcpd runs and whose host has an interface in a network with the id of the
  -- subnet, and raises NoValidHost if there is none.
  pub get_topic_for-reaches :
      (topic : String) (i : ℕ) (services : List Service)
      → Restarted services
      → get_topic_for topic (supports i) services
        ≡ topic_or_none topic (find_where (serves i) services)
  unfolding get_topic_for
  get_topic_for-reaches topic i [] ran = refl
  get_topic_for-reaches topic i (s ∷ services) ran = first_topic-reaches topic i (s ∷ services) ran
