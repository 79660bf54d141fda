-- ===== src/Ssh/Power.antt =====
-- Power of a virtual machine: _get_power_status, _power_on, _power_off and set_power_state of
-- xcat3/plugins/control/ssh.py.
pub mod Orders
pub mod Starts
use xcat.Prelude.{
  ◌≡◌, Bool, true, false, not, ◌&&◌, ◌||◌, String, ◌==◌, Option, none, some, List, [], ◌∷◌,
  if◌then◌else◌,
}
use xcat.Db.{Error, invalid_parameter, power_state_failure, Result, ok, err}
use xcat.Ipmi.{power_on, power_off, reboot, power_error}
use xcat.Ssh.Texts.{concat, is_part, replace}
use xcat.Ssh.Names.{get_hosts_name_for_node}
use xcat.Ssh.{
  ControlInfo, Host, Remote, return, fail, ◌>>=◌, ◌>>◌, command, command_on, ssh_execute,
}

-- `for node in running_list`: a line with the quoted name, or the name itself
unfoldable pub is_listed : String → List String → Bool
is_listed name [] = false
is_listed name (node ∷ nodes) =
    let rest = is_listed name nodes in
    if node == ""
    then rest
    else is_part (concat ("\"" ∷ name ∷ "\"" ∷ [])) node || name == node || rest

-- `if state != pstate: raise PowerStateFailure`
abbrev pub agree : {S : Type 0} → String → String → Remote S (Unit {0})
agree state pstate = if state == pstate then return tt else fail power_state_failure

module _ {S : Type 0} (host : Host S) (c : ControlInfo) where
  -- _get_power_status
  unfoldable pub get_power_status : Remote S String
  get_power_status = do
    node_name ← get_hosts_name_for_node host c
    running_list ← ssh_execute host (command_on c c.cmd_set.list_running node_name)
    return (if is_listed node_name running_list then power_on else power_off)

  -- What _power_on and _power_off do last: the command for the node, and the state that it gives.
  unfoldable pub order : String → String → Remote S String
  order cmd target = do
    node_name ← get_hosts_name_for_node host c
    ssh_execute host (command_on c cmd node_name)
    current_pstate ← get_power_status
    return (if current_pstate == target then current_pstate else power_error)

  -- _power_off
  unfoldable pub power_off_node : Remote S String
  power_off_node = do
    current_pstate ← get_power_status
    if current_pstate == power_off
        then return current_pstate
        else order c.cmd_set.stop_cmd power_off

  -- _power_on, which takes no notice of what _power_off returns
  unfoldable pub power_on_node : Remote S String
  power_on_node = do
    current_pstate ← get_power_status
    (if current_pstate == power_on then power_off_node else return current_pstate)
        >> order c.cmd_set.start_cmd power_on

  -- set_power_state once the node's control_info is read and the connection made
  unfoldable pub set_power_state : String → Remote S (Unit {0})
  set_power_state pstate =
      if pstate == power_on
      then power_on_node >>= (λ state. agree state power_on)
      else if pstate == power_off
      then power_off_node >>= (λ state. agree state power_off)
      else if pstate == reboot
      then power_on_node >>= (λ state. agree state power_on)
      else fail invalid_parameter
