-- ===== src/Ssh/Boot.antt =====
-- Boot devices of a virtual machine: _get_boot_device_map, _get_boot_device and _set_boot_device of
-- xcat3/plugins/control/ssh.py.
pub mod Laws
use xcat.Prelude.{
  ◌≡◌, Bool, true, false, not, String, ◌==◌, Option, none, some, List, [], ◌∷◌, Dict, lookup,
  if◌then◌else◌,
}
use xcat.Db.{Error, invalid_parameter, key_error, value_error, not_implemented, Result, ok, err}
use xcat.Ssh.Texts.{replace}
use xcat.Ssh.Names.{get_hosts_name_for_node}
use xcat.Ssh.{Value, text, ControlInfo, Host, Remote, return, fail, lift, ◌>>=◌, ◌>>◌, ssh_execute}

-- _BOOT_DEVICES_MAP
abbrev pub boot_devices_map : Dict String
boot_devices_map = ("disk", "hd") ∷ ("net", "network") ∷ ("cdrom", "cdrom") ∷ []

abbrev maps_devices : Value → Bool
maps_devices (text t) = if t == "virsh" then true else t == "vmware"
maps_devices _ = false

-- _get_boot_device_map
unfoldable pub get_boot_device_map : Value → Result (Dict String)
get_boot_device_map virt_type =
    if maps_devices virt_type then ok boot_devices_map else err invalid_parameter

-- The first device of the map that the hypervisor calls so, or None.
unfoldable pub device_of : Dict String → String → Option String
device_of [] hdev = none
device_of ((dev, h) ∷ rest) hdev =
    let later = device_of rest hdev in if h == hdev then some dev else later

-- `stdout, stderr = lines`: Python takes exactly two
unfoldable pub first_of_two : List String → Result String
first_of_two (a ∷ b ∷ []) = ok a
first_of_two _ = err value_error

module _ {S : Type 0} (host : Host S) (c : ControlInfo) where
  -- The command of _get_boot_device for a name
  unfoldable pub get_command : String → String → String
  get_command cmd name = replace "{_BaseCmd_}" c.cmd_set.base_cmd (replace "{_NodeName_}" name cmd)

  -- The command of _set_boot_device for a name and a device
  unfoldable pub set_command : String → String → String → String
  set_command cmd name device =
      replace "{_BaseCmd_}" c.cmd_set.base_cmd
        (replace "{_BootDevice_}" device (replace "{_NodeName_}" name cmd))

  -- _get_boot_device
  unfoldable pub get_boot_device_of : Remote S (Option String)
  get_boot_device_of = elim c.cmd_set.get_boot_device [
    | none ↦ fail not_implemented
    | some cmd ↦ if cmd == "" then fail not_implemented else (do
      devices ← lift (get_boot_device_map c.virt_type)
      node_name ← get_hosts_name_for_node host c
      lines ← ssh_execute host (get_command cmd node_name)
      stdout ← lift (first_of_two lines)
      return (device_of devices stdout))
  ]

  -- _set_boot_device
  unfoldable pub set_boot_device_of : String → Remote S (Unit {0})
  set_boot_device_of device = elim c.cmd_set.set_boot_device [
    | none ↦ fail not_implemented
    | some cmd ↦ if cmd == "" then fail not_implemented else (do
      node_name ← get_hosts_name_for_node host c
      ssh_execute host (set_command cmd node_name device)
      return tt)
  ]

  -- `boot_device_map[device]`
  abbrev device_in : Dict String → String → Result String
  device_in devices device = elim (lookup device devices) [ none ↦ err key_error | some h ↦ ok h ]

  -- SSHControl.set_boot_device once the node's control_info is read and the connection made
  unfoldable pub set_device : String → Remote S (Unit {0})
  set_device device = do
    get_hosts_name_for_node host c
    devices ← lift (get_boot_device_map c.virt_type)
    hdev ← lift (device_in devices device)
    set_boot_device_of hdev
