-- ===== src/Tests/Machines.antt =====
-- A host with one virtual machine, as virsh shows it.
use mathlib.Core.Path.{subst}
use xcat.Prelude.{
  sym, ◌≡◌, refl, Bool, true, false, String, ◌==◌, eq_iff, Option, none, some, [], ◌∷◌, Dict,
  contains, if◌then◌else◌, arith,
}
use xcat.Db.{ok}
use xcat.Ssh.Texts.{int, concat, is_part, split_lines, normalize_mac}
use xcat.Ssh.Info.{parse_control_info, validate_network_port, get_command_sets}
use xcat.Ssh.Names.Search.{IsQuiet, wanted}
use xcat.Ssh.Power.Orders.{IsReporting}
use xcat.Ssh.{Value, text, ControlInfo, Host, virsh_cmds, command, command_on, ssh_execute}

pub data Disk : Type 0 where
  hd network cdrom : Disk

abbrev shown : Disk → String
shown hd = "hd\n"
shown network = "network\n"
shown cdrom = "cdrom\n"

-- Whether the machine runs, and its boot device
abbrev pub Machine : Type 0
Machine = Bool × Disk

abbrev base : String → String
base cmd = concat ("LC_ALL=C /usr/bin/virsh " ∷ cmd ∷ [])

abbrev virsh : String → Machine → Option String × Machine
virsh cmd (up, disk) =
    if cmd == "LC_ALL=C /usr/bin/virsh list --all --name"
    then (some "vm\n", (up, disk))
    else if cmd == "LC_ALL=C /usr/bin/virsh list --name"
    then (some (if up then "vm\n" else "\n"), (up, disk))
    else if cmd == "LC_ALL=C /usr/bin/virsh start vm"
    then (if up then none else some "started", (true, disk))
    else if cmd == "LC_ALL=C /usr/bin/virsh destroy vm"
    then (if up then some "stopped" else none, (false, disk))
    else if is_part "mac address" cmd
    then (some "525400aa\n", (up, disk))
    else if is_part "EDITOR" cmd
    then (
      some "edited",
      (
        up,
        if is_part "dev=\\\"hd" cmd
            then hd
            else if is_part "dev=\\\"net" cmd
            then network
            else cdrom,
      ),
    )
    else (some (shown disk), (up, disk))

abbrev pub machine : Host Machine
machine = record { connect = λ c key s. (true, s); execute = virsh; wait = λ s. s }

abbrev pub info : Dict Value
info =
    ("ssh_address", text "h")
    ∷ ("ssh_username", text "root")
    ∷ ("ssh_virt_type", text "virsh")
    ∷ ("ssh_password", text "x")
    ∷ ("ssh_port", text "2222")
    ∷ []

abbrev pub vm : ControlInfo
vm = record {
  host = text "h";
  username = text "root";
  port = 2222;
  virt_type = text "virsh";
  name = "a";
  terminal_port = none;
  cmd_set = virsh_cmds;
  password = some (text "x");
  key_contents = none;
  key_filename = none;
  macs = some "52:54:00:AA" ∷ [];
}

pub vm-parsed : parse_control_info (λ v. false) "a" info (some "52:54:00:AA" ∷ []) ≡ ok vm
unfolding parse_control_info validate_network_port get_command_sets int
vm-parsed = refl

pub vm-listed :
    (name : String) → contains ("vm" ∷ "" ∷ []) name ≡ true → (name == "") ≡ false → name ≡ "vm"
vm-listed name h named = ground (arith, eq_iff name "vm", eq_iff name "", h, named)

pub cards-read :
    (s : Machine)
    → ssh_execute machine (command_on vm virsh_cmds.get_node_macs "vm") s
      ≡ (ok ("525400aa" ∷ "" ∷ []), s)
unfolding ssh_execute command_on split_lines is_part
cards-read s = refl

pub list-read :
    (s : Machine)
    → ssh_execute machine (command vm virsh_cmds.list_all) s ≡ (ok ("vm" ∷ "" ∷ []), s)
unfolding ssh_execute command split_lines
list-read s = refl

unfoldable pub quiet : IsQuiet machine vm
quiet = record {
  names = λ s. "vm" ∷ "" ∷ [];
  macs_of = λ s name. "525400aa" ∷ "" ∷ [];
  addresses = "52:54:00:AA" ∷ [];
  macs = refl;
  list_all = list-read;
  get_node_macs = λ s name h named.
      subst
        (λ n.
          ssh_execute machine (command_on vm virsh_cmds.get_node_macs n) s
          ≡ (ok ("525400aa" ∷ "" ∷ []), s))
        (sym (vm-listed name h named)) (cards-read s);
}

pub vm-wanted : (s : Machine) → wanted quiet s ≡ some "vm"
unfolding quiet is_part normalize_mac
vm-wanted s = refl

pub is_vm : (s : Machine) (name : String) → wanted quiet s ≡ some name → name ≡ "vm"
is_vm s name h = ground (arith, vm-wanted s, h)

pub running-read :
    (s : Machine) (name : String)
    → ssh_execute machine (command_on vm virsh_cmds.list_running name) s
      ≡ (ok (if s.0 then "vm" ∷ "" ∷ [] else "" ∷ "" ∷ []), s)
unfolding ssh_execute command_on split_lines
running-read (true, disk) name = refl
running-read (false, disk) name = refl

unfoldable pub report : IsReporting machine vm
report = record {
  quiet = quiet;
  running = λ s. if s.0 then "vm" ∷ "" ∷ [] else "" ∷ "" ∷ [];
  list_running = running-read;
}
