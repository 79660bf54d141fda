-- ===== src/Ssh.antt =====
-- The SSH plugin, xcat3/plugins/control/ssh.py: what it knows of a node, its commands, and how it
-- runs them on the host of the virtual machine (also ssh_connect of xcat3/common/utils.py).
pub mod Texts
pub mod Info
pub mod Names
pub mod Power
pub mod Boot
pub mod Plugin
use xcat.Prelude.{
  ℕ, ◌≡◌, refl, ◌⊎◌, inl, inr, Bool, true, false, not, String, ◌==◌, eqb, Option, none, some, List,
  [], ◌∷◌, if◌then◌else◌,
}
use xcat.Db.{Error, ssh_connect_failed, ssh_command_failed, Result, ok, err}
use xcat.Ssh.Texts.{ℤ, pos, negsuc, concat, split_lines, is_part, replace}

-- A value of the dictionary `node.control_info`, which is JSON: a finite float with its integer part and
-- whether it differs from 0, and a list or an object with whether it has an element
pub data Value : Type 0 where
  text : String → Value
  number : ℤ → Value
  float : ℤ → Bool → Value
  boolean : Bool → Value
  compound : Bool → Value
  null : Value

-- What _get_command_sets returns; the last two are read by `get`.
pub record CommandSet : Type 0 where
  pub base_cmd : String
  pub start_cmd : String
  pub stop_cmd : String
  pub reboot_cmd : String
  pub list_all : String
  pub list_running : String
  pub get_node_macs : String
  pub set_boot_device : Option String
  pub get_boot_device : Option String

-- What _parse_control_info returns, with the addresses of the node's cards.
pub record ControlInfo : Type 0 where
  pub host : Value
  pub username : Value
  pub port : ℕ
  pub virt_type : Value
  pub name : String
  pub terminal_port : Option ℕ
  pub cmd_set : CommandSet
  pub password : Option Value
  pub key_contents : Option Value
  pub key_filename : Option Value
  pub macs : List (Option String)

pub data Key : Type 0 where
  rsa dss : String → Key

-- The remote host, as the packages paramiko and oslo.concurrency reach it: whether a connection is
-- made, what a command writes (none where it fails), and what happens in the three seconds between
-- two attempts. The state S is that of the host.
pub record Host (S : Type 0) : Type 0 where
  pub connect : ControlInfo → Option Key → S → Bool × S
  pub execute : String → S → Option String × S
  pub wait : S → S

-- A call that talks to the host and may raise.
abbrev pub Remote : Type 0 → Type 0 → Type 0
Remote S A = S → Result A × S

module _ {S A : Type 0} where
  abbrev pub return : A → Remote S A
  return a s = (ok a, s)

  abbrev pub fail : Error → Remote S A
  fail e s = (err e, s)

  abbrev pub lift : Result A → Remote S A
  lift r s = (r, s)

infixl 5 ◌>>=◌ ◌>>◌
abbrev pub ◌>>=◌ : {S A B : Type 0} → Remote S A → (A → Remote S B) → Remote S B
◌>>=◌ m f s = let (r, s') = m s in elim r [ ok a ↦ f a s' | err e ↦ (err e, s') ]

abbrev pub ◌>>◌ : {S A B : Type 0} → Remote S A → Remote S B → Remote S B
m >> k = m >>= λ _. k

-- A call returns or raises.
pub Remote-cases :
    {S A : Type 0} (r : Result A × S)
    → ((a : A) × (s : S) × (r ≡ (ok a, s))) ⊎ ((e : Error) × (s : S) × (r ≡ (err e, s)))
Remote-cases (ok a, s) = inl (a, s, refl)
Remote-cases (err e, s) = inr (e, s, refl)

-- The commands of _get_command_sets for virsh
abbrev pub set_boot_device_cmd : String
set_boot_device_cmd =
    "EDITOR=\"sed -i '/<boot \\(dev\\|order\\)=*\\>/d;/<\\/os>/i\\<boot dev=\\\"{_BootDevice_}\\\"/>'\" {_BaseCmd_} edit {_NodeName_}"

abbrev pub get_boot_device_cmd : String
get_boot_device_cmd =
    "{_BaseCmd_} dumpxml {_NodeName_} | awk '/boot dev=/ { gsub( \".*dev=\" Q, \"\" ); gsub( Q \".*\", \"\" ); print; }' Q=\"'\" RS=\"[<>]\" | head -1"

abbrev pub virsh_cmds : CommandSet
virsh_cmds = record {
  base_cmd = "LC_ALL=C /usr/bin/virsh";
  start_cmd = "start {_NodeName_}";
  stop_cmd = "destroy {_NodeName_}";
  reboot_cmd = "reset {_NodeName_}";
  list_all = "list --all --name";
  list_running = "list --name";
  get_node_macs = "dumpxml {_NodeName_} | awk -F \"'\" '/mac address/{print $2}'| tr -d ':'";
  set_boot_device = some set_boot_device_cmd;
  get_boot_device = some get_boot_device_cmd;
}

-- `"%s %s" % (base_cmd, cmd)`
unfoldable pub command : ControlInfo → String → String
unfolding concat
command c cmd = concat (c.cmd_set.base_cmd ∷ " " ∷ cmd ∷ [])

-- `cmd_to_exec.replace('{_NodeName_}', name)` of a command
unfoldable pub command_on : ControlInfo → String → String → String
unfolding command replace
command_on c cmd name = replace "{_NodeName_}" name (command c cmd)

-- _ssh_execute
unfoldable pub ssh_execute : {S : Type 0} → Host S → String → Remote S (List String)
unfolding split_lines
ssh_execute host cmd s =
    let (output, s') = host.execute cmd s in
    elim output [ none ↦ (err ssh_command_failed, s') | some out ↦ (ok (split_lines out), s') ]

-- Python's truth of a value
abbrev pub is_true : Value → Bool
is_true null = false
is_true (text t) = not (t == "")
is_true (number (pos n)) = not (eqb n 0)
is_true (number (negsuc n)) = true
is_true (float z b) = b
is_true (boolean b) = b
is_true (compound b) = b

key_of : Value → Result (Option Key)
unfolding is_part
key_of (text t) =
    if is_part "BEGIN RSA PRIVATE" t
    then ok (some (rsa t))
    else if is_part "BEGIN DSA PRIVATE" t
    then ok (some (dss t))
    else err ssh_connect_failed
key_of _ = err ssh_connect_failed

-- The private key that ssh_connect reads from `key_contents`, which raises ValueError on another.
unfoldable pub private_key : Option Value → Result (Option Key)
unfolding key_of
private_key none = ok none
private_key (some v) = if is_true v then key_of v else ok none

-- utils.ssh_connect
unfoldable pub ssh_connect : {S : Type 0} → Host S → ControlInfo → Remote S (Unit {0})
unfolding private_key
ssh_connect host c s = elim (private_key c.key_contents) [
  | err e ↦ (err e, s)
  | ok key ↦
      let (connected, s') = host.connect c key s in
      if connected then (ok tt, s') else (err ssh_connect_failed, s')
]
