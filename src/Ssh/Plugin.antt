-- ===== src/Ssh/Plugin.antt =====
-- class SSHControl of xcat3/plugins/control/ssh.py, as the conductor calls it.
use xcat.Prelude.{
  Bool, true, false, String, Option, List, Dict, lookup, if◌then◌else◌, is_empty, is_none,
}
use xcat.Db.{
  Error, invalid_parameter, missing_parameter, ssh_connect_failed, not_implemented,
  unbound_local_error, ok, err,
}
use xcat.Ssh.Info.{parse_control_info}
use xcat.Ssh.Power.{get_power_status}
use xcat.Ssh.Boot.{boot_devices_map, get_boot_device_of, set_device}
use xcat.Ssh.{Value, ControlInfo, Host, Remote, return, fail, lift, ◌>>=◌, ◌>>◌, ssh_connect}

-- What the plugin reads of a node: its name, its control_info and the addresses of its cards, which
-- get_mac_addresses of xcat3/plugins/utils.py lists.
pub record Target : Type 0 where
  pub name : String
  pub control_info : Dict Value
  pub macs : List (Option String)

module _ {S : Type 0} (host : Host S) (isfile : Value → Bool) where
  -- _get_connection, with the control_info that it is made from
  unfoldable pub get_connection : Target → Remote S ControlInfo
  get_connection node = do
    c ← lift (parse_control_info isfile node.name node.control_info node.macs)
    ssh_connect host c
    return c

  abbrev is_connect_failed : Error → Bool
  is_connect_failed ssh_connect_failed = true
  is_connect_failed _ = false

  -- SSHControl.validate
  unfoldable pub validate : Target → Remote S (Unit {0})
  validate node s =
      if is_empty node.macs
      then (err missing_parameter, s)
      else let (r, s') = get_connection node s in
        elim r [
          | ok c ↦ (ok tt, s')
          | err e ↦ (err (if is_connect_failed e then invalid_parameter else e), s')
        ]

  -- SSHControl.get_power_state
  unfoldable pub get_power_state : Target → Remote S String
  get_power_state node = do c ← get_connection node; get_power_status host c

  -- SSHControl.set_power_state
  unfoldable pub set_power_state : Target → String → Remote S (Unit {0})
  set_power_state node pstate = do
    c ← get_connection node
    xcat.Ssh.Power.set_power_state host c pstate

  -- SSHControl.set_boot_device: the device is looked at once the control_info is read
  unfoldable pub set_boot_device : Target → String → Remote S (Unit {0})
  set_boot_device node device = do
    c ← lift (parse_control_info isfile node.name node.control_info node.macs)
    if is_none (lookup device boot_devices_map)
        then fail invalid_parameter
        else ssh_connect host c >> set_device host c device

  abbrev is_not_implemented : Error → Bool
  is_not_implemented not_implemented = true
  is_not_implemented _ = false

  -- SSHControl.get_boot_device; after a NotImplementedError the variable that it returns is unset.
  unfoldable pub get_boot_device : Target → Remote S (Option String)
  get_boot_device node = get_connection node >>= λ c s.
      let (r, s') = get_boot_device_of host c s in
      elim r [
        | ok response ↦ (ok response, s')
        | err e ↦ (err (if is_not_implemented e then unbound_local_error else e), s')
      ]
