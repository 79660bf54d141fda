-- ===== src/Ssh/Info.antt =====
-- _parse_control_info of xcat3/plugins/control/ssh.py, with validate_network_port of
-- xcat3/common/utils.py.
pub mod Bounds
use xcat.Prelude.{
  ℕ, ◌≡◌, Bool, true, false, not, ◌&&◌, ◌||◌, String, ◌==◌, ltb, Option, none, some, List, [], ◌∷◌,
  Dict, lookup, if◌then◌else◌, is_none,
}
use xcat.Db.{Error, missing_parameter, invalid_parameter, type_error, Result, ok, err}
use xcat.Conductor.{bind}
use xcat.Ssh.Texts.{ℤ, pos, negsuc, int}
use xcat.Ssh.{
  Value, text, number, float, boolean, compound, null, CommandSet, virsh_cmds, ControlInfo, is_true,
}

-- The range test of validate_network_port
abbrev in_range : ℤ → Result ℕ
in_range (pos n) = if ltb n 1 || ltb 65535 n then err invalid_parameter else ok n
in_range (negsuc n) = err invalid_parameter

-- utils.validate_network_port, of an ASCII text or another value; int() of None, a list or an object is a
-- TypeError, which it lets through.
unfoldable pub validate_network_port : Value → Result ℕ
validate_network_port null = err type_error
validate_network_port (compound b) = err type_error
validate_network_port (number n) = in_range n
validate_network_port (float n b) = in_range n
validate_network_port (boolean b) = if b then in_range (pos 1) else in_range (pos 0)
validate_network_port (text t) = elim (int t) [ none ↦ err invalid_parameter | some n ↦ in_range n ]

-- `info.get(key)`, where a value that is null and a missing one are alike
abbrev pub given : Dict Value → String → Option Value
given info key = elim (lookup key info) [
  | none ↦ none
  | some v ↦ if is_null v then none else some v
]
  where
    is_null : Value → Bool
    is_null null = true
    is_null _ = false

-- `v` for an option that counts as set
abbrev pub truthful : Option Value → Option Value
truthful none = none
truthful (some v) = if is_true v then some v else none

abbrev pub is_set : Dict Value → String → Bool
is_set info key = not (is_none (truthful (lookup key info)))

-- `info.get('ssh_port', 22)`
abbrev pub port_of : Dict Value → Result ℕ
port_of info = elim (lookup "ssh_port" info) [
  | none ↦ validate_network_port (number (pos 22))
  | some v ↦ validate_network_port v
]

abbrev pub terminal_port_of : Dict Value → Result (Option ℕ)
terminal_port_of info = elim (given info "ssh_terminal_port") [
  | none ↦ ok none
  | some v ↦ bind (validate_network_port v) λ n. ok (some n)
]

-- _get_command_sets
abbrev is_virsh : Value → Bool
is_virsh (text t) = t == "virsh"
is_virsh _ = false

unfoldable pub get_command_sets : Value → Result CommandSet
get_command_sets v = if is_virsh v then ok virsh_cmds else err invalid_parameter

abbrev pub value_of : Dict Value → String → Value
value_of info key = elim (lookup key info) [ none ↦ null | some v ↦ v ]

abbrev pub require : Bool → Error → Result (Unit {0})
require c e = if c then ok tt else err e

-- `"%s" in info` with a true value, for all of REQUIRED_PROPERTIES
abbrev pub has_required : Dict Value → Bool
has_required info =
    is_set info "ssh_address" && is_set info "ssh_username" && is_set info "ssh_virt_type"

abbrev pub has_credential : Dict Value → Bool
has_credential info =
    is_set info "ssh_password" || is_set info "ssh_key_filename" || is_set info "ssh_key_contents"

abbrev pub has_two_keys : Dict Value → Bool
has_two_keys info = is_set info "ssh_key_filename" && is_set info "ssh_key_contents"

-- `if key_filename: if not os.path.isfile(key_filename)`
abbrev pub key_file_found : (Value → Bool) → Dict Value → Bool
key_file_found isfile info = elim (truthful (lookup "ssh_key_filename" info)) [
  | none ↦ true
  | some v ↦ isfile v
]

-- `res` of _parse_control_info, with the addresses of the node's cards
abbrev pub collected :
    String → Dict Value → List (Option String) → ℕ → Option ℕ → CommandSet → ControlInfo
collected name info macs port terminal_port cmd_set = record {
  host = value_of info "ssh_address";
  username = value_of info "ssh_username";
  port = port;
  virt_type = value_of info "ssh_virt_type";
  name = name;
  terminal_port = terminal_port;
  cmd_set = cmd_set;
  password = truthful (lookup "ssh_password" info);
  key_contents = truthful (lookup "ssh_key_contents" info);
  key_filename = truthful (lookup "ssh_key_filename" info);
  macs = macs;
}

-- _parse_control_info of a node with its name and its `control_info`
unfoldable pub parse_control_info :
    (Value → Bool) → String → Dict Value → List (Option String) → Result ControlInfo
unfolding validate_network_port get_command_sets
parse_control_info isfile name info macs = bind (require (has_required info) missing_parameter) λ _.
    bind (port_of info) λ port. bind (terminal_port_of info) λ terminal_port.
      bind (get_command_sets (value_of info "ssh_virt_type")) λ cmd_set.
        bind (require (has_credential info) invalid_parameter) λ _.
          bind (require (not (has_two_keys info)) invalid_parameter) λ _.
            bind (require (key_file_found isfile info) invalid_parameter)
              λ _. ok (collected name info macs port terminal_port cmd_set)
