-- ===== src/Tests/Orders.antt =====
-- Orders to the virtual machine.
use mathlib.Core.Path.{subst}
use xcat.Prelude.{
  sym, ◌∙◌, ◌≡◌, refl, Bool, true, false, String, some, List, [], ◌∷◌, if◌then◌else◌,
}
use xcat.Db.{ok}
use xcat.Ipmi.{power_on, power_off, reboot}
use xcat.Ssh.Texts.{pos, concat, is_part, split_lines}
use xcat.Ssh.Info.{validate_network_port}
use mathlib.Core.Logic.{◌↔◌}
use xcat.Ssh.Info.Bounds.{IsPort, int_of, validate_network_port-IsPort}
use xcat.Ssh.Names.{get_hosts_name_for_node}
use xcat.Ssh.Names.Search.{sought, get_hosts_name_for_node-sought}
use xcat.Ssh.Power.{set_power_state, get_power_status, is_listed}
use xcat.Ssh.Power.Orders.{set_power_state-told}
use xcat.Ssh.Power.Starts.{IsHypervisor, set_power_state-turns}
use xcat.Ssh.{text, virsh_cmds, command_on, ssh_execute}
use xcat.Tests.Machines.{hd, Machine, machine, vm, vm-wanted, is_vm, quiet, report}

-- The machine after `start`, and after `destroy`
abbrev up : Machine → String → Machine
up s name = (true, s.1)

abbrev down : Machine → String → Machine
down s name = (false, s.1)

abbrev runs : Machine → String → Bool
runs s name = is_listed name (report.running s)

vm-runs : (s : Machine) → runs s "vm" ≡ s.0
unfolding report is_listed is_part concat
vm-runs (true, disk) = refl
vm-runs (false, disk) = refl

abbrev printed : Machine → List String
printed s = if s.0 then "stopped" ∷ [] else "started" ∷ []

vm-start :
    (s : Machine)
    → runs s "vm" ≡ false
    → ssh_execute machine (command_on vm virsh_cmds.start_cmd "vm") s ≡ (ok (printed s), up s "vm")
unfolding ssh_execute command_on split_lines
vm-start (true, disk) h = let wrong : true ≡ false = sym (vm-runs (true, disk)) ∙ h in cc
vm-start (false, disk) h = refl

vm-stop :
    (s : Machine)
    → runs s "vm" ≡ true
    → ssh_execute machine (command_on vm virsh_cmds.stop_cmd "vm") s ≡ (ok (printed s), down s "vm")
unfolding ssh_execute command_on split_lines
vm-stop (true, disk) h = refl
vm-stop (false, disk) h = let wrong : false ≡ true = sym (vm-runs (false, disk)) ∙ h in cc

hypervisor : IsHypervisor machine vm
unfolding report quiet
hypervisor = record {
  report = report;
  printed = λ s name. printed s;
  started = up;
  stopped = down;
  start = λ s name w halted.
      subst
        (λ n.
          runs s n ≡ false
          → ssh_execute machine (command_on vm virsh_cmds.start_cmd n) s ≡ (ok (printed s), up s n))
        (sym (is_vm s name w)) (vm-start s) halted;
  stop = λ s name w running.
      subst
        (λ n.
          runs s n ≡ true
          → ssh_execute machine (command_on vm virsh_cmds.stop_cmd n) s
            ≡ (ok (printed s), down s n))
        (sym (is_vm s name w)) (vm-stop s) running;
  running-started =
      λ s name w. subst (λ n. runs (up s n) n ≡ true) (sym (is_vm s name w)) (vm-runs (up s "vm"));
  running-stopped = λ s name w.
      subst (λ n. runs (down s n) n ≡ false) (sym (is_vm s name w)) (vm-runs (down s "vm"));
  wanted-started = λ s name w. vm-wanted (up s name) ∙ sym (vm-wanted s);
  wanted-stopped = λ s name w. vm-wanted (down s name) ∙ sym (vm-wanted s);
}

set_power_state-turns_example :
    (set_power_state machine vm power_off (true, hd) ≡ (ok tt, (false, hd)))
    × (set_power_state machine vm power_on (true, hd) ≡ (ok tt, (true, hd)))
    × (set_power_state machine vm reboot (true, hd) ≡ (ok tt, (true, hd)))
unfolding hypervisor report is_listed is_part concat
set_power_state-turns_example =
    set_power_state-turns hypervisor (true, hd) "vm" (vm-wanted (true, hd))

vm-rebooted : set_power_state machine vm reboot (true, hd) ≡ (ok tt, (true, hd))
unfolding hypervisor report is_listed is_part concat
vm-rebooted = (set_power_state-turns hypervisor (true, hd) "vm" (vm-wanted (true, hd))).2

set_power_state-told_example : get_power_status machine vm (true, hd) ≡ (ok power_on, (true, hd))
set_power_state-told_example = set_power_state-told report reboot (true, hd) (true, hd) vm-rebooted

get_hosts_name_for_node-sought_example :
    get_hosts_name_for_node machine vm (true, hd) ≡ sought quiet 3 (true, hd)
get_hosts_name_for_node-sought_example = get_hosts_name_for_node-sought quiet (true, hd)

validate_network_port-IsPort_example :
    (validate_network_port (text " 22 ") ≡ ok 22)
    ↔ ((int_of (text " 22 ") ≡ some (pos 22)) × IsPort 22)
validate_network_port-IsPort_example = validate_network_port-IsPort (text " 22 ") 22
