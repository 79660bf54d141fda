-- ===== src/Ssh/Names.antt =====
-- _get_hosts_name_for_node of xcat3/plugins/control/ssh.py: the name of the virtual machine that
-- has a card of the node.
pub mod Search
use xcat.Prelude.{
  ℕ, zero, suc, ◌≡◌, Bool, true, false, String, ◌==◌, Option, none, some, List, [], ◌∷◌,
  if◌then◌else◌,
}
use xcat.Db.{Error, node_not_found, attribute_error, Result, ok, err}
use xcat.Ssh.Texts.{is_part, normalize_mac}
use xcat.Ssh.{
  ControlInfo, Host, Remote, return, fail, lift, ◌>>=◌, command, command_on, ssh_execute,
}

-- `for node_mac in control_info['macs']`: the first card whose address the host's is a part of. A
-- card without an address, which is None, has no method `replace`.
unfoldable pub is_card : String → List (Option String) → Result Bool
is_card host_mac [] = ok false
is_card host_mac (none ∷ macs) = err attribute_error
is_card host_mac (some mac ∷ macs) =
    let rest = is_card host_mac macs in
    if is_part (normalize_mac host_mac) (normalize_mac mac) then ok true else rest

-- `for host_mac in hosts_node_mac_list`, until one matches
unfoldable pub has_card : List (Option String) → List String → Result Bool
has_card macs [] = ok false
has_card macs (host_mac ∷ host_macs) =
    let rest = has_card macs host_macs in
    if host_mac == ""
    then rest
    else elim (is_card host_mac macs) [ err e ↦ err e | ok found ↦ if found then ok true else rest ]

module _ {S : Type 0} (host : Host S) (c : ControlInfo) where
  -- `for node in full_node_list`, until one has a card of the node
  unfoldable pub first_with_card : List String → Remote S (Option String)
  first_with_card [] s = (ok none, s)
  first_with_card (node ∷ nodes) s =
      let rest = first_with_card nodes in
      elim (node == "") [
        | true ↦ rest s
        | false ↦
            (do
              host_macs ← ssh_execute host (command_on c c.cmd_set.get_node_macs node)
              found ← lift (has_card c.macs host_macs)
              if found then return (some node) else rest)
              s
      ]

  -- _with_retries, one attempt
  unfoldable pub find_once : Remote S (Option String)
  find_once = do
    full_node_list ← ssh_execute host (command c c.cmd_set.list_all)
    first_with_card full_node_list

  -- The attempts that `retrying` makes while the result is None, with a wait between two.
  unfoldable pub find_within : ℕ → Remote S (Option String)
  find_within zero s = (ok none, s)
  find_within (suc zero) s = find_once s
  find_within (suc (suc n)) s =
      let (r, s') = find_once s in
      let again = find_within (suc n) (host.wait s') in
      elim r [ ok none ↦ again | ok (some name) ↦ (ok (some name), s') | err e ↦ (err e, s') ]

  -- _get_hosts_name_for_node: at most three attempts
  unfoldable pub get_hosts_name_for_node : Remote S String
  get_hosts_name_for_node = do
    matched_name ← find_within 3
    elim matched_name [ none ↦ fail node_not_found | some name ↦ return name ]
