-- ===== src/Ipmi.antt =====
-- Power and boot devices over IPMI: class IPMIPlugin of xcat3/plugins/control/ipmi.py, and the
-- states and devices of xcat3/common/states.py and xcat3/common/boot_device.py.
pub mod Laws
use xcat.Prelude.{
  ℕ, ◌≡◌, Bool, true, false, not, String, ◌==◌, Option, none, some, List, [], ◌∷◌, Dict, lookup,
  if◌then◌else◌, is_none, is_text, truthy,
}
use xcat.Db.{
  Node, Error, missing_parameter, invalid_parameter, ipmi_failure, power_state_failure, Result, ok,
  err,
}
use xcat.Conductor.{ControlPlugin, bind}

abbrev pub power_on : String
power_on = "on"

abbrev pub power_off : String
power_off = "off"

abbrev pub reboot : String
reboot = "boot"

abbrev pub power_error : String
power_error = "error"

abbrev pub unknown : String
unknown = "unknown"

-- IPMIPlugin._BOOT_DEVICES_MAP
abbrev pub boot_devices_map : Dict String
boot_devices_map = ("disk", "hd") ∷ ("net", "network") ∷ ("cdrom", "cdrom") ∷ []

-- The package pyghmi: a connection to a BMC and its commands, each of which replies with a
-- dictionary or raises IpmiException (none).
pub record Pyghmi : Type 0 where
  pub command : Option String → Option String → Option String → Option ℕ
  pub get_power : ℕ → Option (Dict String)
  pub set_power : ℕ → String → Option (Dict String)
  pub get_bootdev : ℕ → Option (Dict String)
  pub set_bootdev : ℕ → String → Option (Dict String)
  pub logout : ℕ → Option (Unit {0})

-- IPMIPlugin.validate of `node.control_info`
pub validate : Dict String → Result (Unit {0})
validate info =
    if is_none (lookup "bmc_address" info)
    then err missing_parameter
    else if is_none (lookup "bmc_username" info)
    then err missing_parameter
    else ok tt

abbrev attempt : {A : Type 0} → Option A → Result A
attempt none = err ipmi_failure
attempt (some a) = ok a

-- The `try` of every call: connect, give one command, log out; an IpmiException is an IPMIFailure.
unfoldable pub exchange : Pyghmi → Dict String → (ℕ → Option (Dict String)) → Result (Dict String)
exchange p info order =
    bind
      (attempt (
        p.command (lookup "bmc_address" info) (lookup "bmc_username" info)
          (lookup "bmc_password" info)))
      λ session. bind (attempt (order session)) λ ret. bind (attempt (p.logout session)) λ _. ok ret

-- IPMIPlugin.get_power_state
pub get_power_state : Pyghmi → Dict String → Result String
unfolding exchange
get_power_state p info = bind (exchange p info p.get_power) λ ret.
    let state = lookup "powerstate" ret in
    if is_text state "on"
    then ok power_on
    else if is_text state "off"
    then ok power_off
    else ok power_error

-- `ret.get('powerstate') or ret.get('pendingpowerstate')`
abbrev pub powered : Dict String → Option String
powered ret =
    if truthy (lookup "powerstate" ret)
    then lookup "powerstate" ret
    else lookup "pendingpowerstate" ret

-- IPMIPlugin._power_on and IPMIPlugin._power_off
unfoldable pub switch : Pyghmi → String → Dict String → Result String
unfolding exchange
switch p target info =
    bind (exchange p info (λ session. p.set_power session target))
      λ ret. if is_text (powered ret) target then ok target else err power_state_failure

-- IPMIPlugin._reboot
unfoldable pub reset : Pyghmi → Dict String → Result String
unfolding exchange
reset p info =
    bind (exchange p info (λ session. p.set_power session reboot))
      λ ret. if is_none (lookup "error" ret) then ok power_on else err power_state_failure

abbrev discard : {A : Type 0} → Result A → Result (Unit {0})
discard (ok _) = ok tt
discard (err e) = err e

-- IPMIPlugin.set_power_state
unfoldable pub set_power_state : Pyghmi → Dict String → String → Result (Unit {0})
unfolding switch reset
set_power_state p info target =
    if target == power_on
    then discard (switch p power_on info)
    else if target == power_off
    then discard (switch p power_off info)
    else if target == reboot
    then discard (reset p info)
    else err invalid_parameter

-- The first device whose IPMI name it is, else UNKNOWN.
pub device_of : Dict String → String → String
device_of [] hdev = unknown
device_of ((dev, h) ∷ rest) hdev =
    let later = device_of rest hdev in if h == hdev then dev else later

-- IPMIPlugin.get_boot_device
pub get_boot_device : Pyghmi → Dict String → Result String
unfolding exchange device_of
get_boot_device p info = bind (exchange p info p.get_bootdev) λ ret.
    if is_none (lookup "error" ret)
    then ok (elim (lookup "bootdev" ret) [ none ↦ unknown | some b ↦ device_of boot_devices_map b ])
    else err ipmi_failure

-- IPMIPlugin.set_boot_device
unfoldable pub set_boot_device : Pyghmi → Dict String → String → Result (Unit {0})
unfolding exchange
set_boot_device p info device = elim (lookup device boot_devices_map) [
  | none ↦ err invalid_parameter
  | some hdev ↦ discard (exchange p info (λ session. p.set_bootdev session hdev))
]

abbrev shown : Result String → Result (Option String)
shown (ok s) = ok (some s)
shown (err e) = err e

-- The plugin, for nodes whose `control_info` is known.
pub ipmi_plugin : Pyghmi → (Node → Dict String) → ControlPlugin
unfolding validate set_power_state get_power_state get_boot_device set_boot_device
ipmi_plugin p info = record {
  validate = λ node. validate (info node);
  set_power_state = λ node target. set_power_state p (info node) target;
  get_power_state = λ node. shown (get_power_state p (info node));
  get_boot_device = λ node. shown (get_boot_device p (info node));
  set_boot_device = λ node device. set_boot_device p (info node) device;
}
