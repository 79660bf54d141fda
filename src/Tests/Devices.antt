-- ===== src/Tests/Devices.antt =====
-- Boot devices of the virtual machine.
use mathlib.Core.Path.{subst}
use xcat.Prelude.{
  inl, inr, Bool-cases, sym, ◌∙◌, ◌≡◌, refl, true, String, ◌==◌, some, [], ◌∷◌, lookup,
  if◌then◌else◌, arith,
}
use xcat.Db.{ok}
use xcat.Ssh.Texts.{is_part, replace, split_lines}
use xcat.Ssh.Boot.{boot_devices_map, get_command, set_command, set_device, get_boot_device_of}
use xcat.Ssh.Boot.Laws.{IsEditor, get_boot_device_of-set_device}
use xcat.Ssh.{set_boot_device_cmd, get_boot_device_cmd, ssh_execute}
use xcat.Tests.Machines.{Disk, hd, network, cdrom, Machine, machine, vm, vm-wanted, is_vm, quiet}

-- Boot devices
abbrev disk_of : String → Disk
disk_of hdev = if hdev == "hd" then hd else if hdev == "network" then network else cdrom

abbrev edited : Machine → String → String → Machine
edited s name hdev = (s.0, disk_of hdev)

data IsHdev : String → Type 0 where
  is_hd : IsHdev "hd"
  is_network : IsHdev "network"
  is_cdrom : IsHdev "cdrom"

lookup-IsHdev : (device hdev : String) → lookup device boot_devices_map ≡ some hdev → IsHdev hdev
lookup-IsHdev device hdev h = elim (Bool-cases ("disk" == device)) [
  | inl disk ↦ subst (λ k. IsHdev k) (ground (arith, disk, h)) is_hd
  | inr not_disk ↦ elim (Bool-cases ("net" == device)) [
    | inl net ↦ subst (λ k. IsHdev k) (ground (arith, not_disk, net, h)) is_network
    | inr not_net ↦ elim (Bool-cases ("cdrom" == device)) [
      | inl optical ↦ subst (λ k. IsHdev k) (ground (arith, not_disk, not_net, optical, h)) is_cdrom
      | inr not_cdrom ↦ ground (arith, not_disk, not_net, not_cdrom, h)
    ]
  ]
]

vm-edit :
    (s : Machine) (hdev : String)
    → IsHdev hdev
    → ssh_execute machine (set_command machine vm set_boot_device_cmd "vm" hdev) s
      ≡ (ok ("edited" ∷ []), edited s "vm" hdev)
unfolding ssh_execute set_command split_lines is_part replace
vm-edit s hdev is_hd = refl
vm-edit s hdev is_network = refl
vm-edit s hdev is_cdrom = refl

abbrev device : Machine → String → String
device (on, hd) name = "hd"
device (on, network) name = "network"
device (on, cdrom) name = "cdrom"

vm-edited : (s : Machine) (hdev : String) → IsHdev hdev → device (edited s "vm" hdev) "vm" ≡ hdev
vm-edited s hdev is_hd = refl
vm-edited s hdev is_network = refl
vm-edited s hdev is_cdrom = refl

vm-dump :
    (s : Machine)
    → ssh_execute machine (get_command machine vm get_boot_device_cmd "vm") s
      ≡ (ok (device s "vm" ∷ "" ∷ []), s)
unfolding ssh_execute get_command split_lines is_part replace
vm-dump (on, hd) = refl
vm-dump (on, network) = refl
vm-dump (on, cdrom) = refl

editor : IsEditor machine vm
unfolding quiet
editor = record {
  quiet = quiet;
  virt_type = refl;
  set_cmd = set_boot_device_cmd;
  get_cmd = get_boot_device_cmd;
  has_set_cmd = (refl, refl);
  has_get_cmd = (refl, refl);
  device = device;
  printed = λ s name. "edited" ∷ [];
  edited = edited;
  edit = λ s name dev hdev w known.
      subst
        (λ n.
          ssh_execute machine (set_command machine vm set_boot_device_cmd n hdev) s
          ≡ (ok ("edited" ∷ []), edited s n hdev))
        (sym (is_vm s name w)) (vm-edit s hdev (lookup-IsHdev dev hdev known));
  dump = λ s name w.
      subst
        (λ n.
          ssh_execute machine (get_command machine vm get_boot_device_cmd n) s
          ≡ (ok (device s n ∷ "" ∷ []), s))
        (sym (is_vm s name w)) (vm-dump s);
  device-edited = λ s name dev hdev w known.
      subst (λ n. device (edited s n hdev) n ≡ hdev) (sym (is_vm s name w))
        (vm-edited s hdev (lookup-IsHdev dev hdev known));
  wanted-edited = λ s name hdev w. vm-wanted (edited s name hdev) ∙ sym (vm-wanted s);
}

get_boot_device_of-set_device_example :
    ((set_device machine vm "net" (true, hd)).0 ≡ ok tt)
    × ((get_boot_device_of machine vm (set_device machine vm "net" (true, hd)).1).0
        ≡ ok (some "net"))
unfolding editor quiet
get_boot_device_of-set_device_example =
    get_boot_device_of-set_device editor (true, hd) "vm" "net" "network" (vm-wanted (true, hd)) refl
