-- ===== src/Ssh/Boot/Laws.antt =====
-- set_boot_device and get_boot_device of xcat3/plugins/control/ssh.py, one after the other.
use xcat.Prelude.{
  inl, inr, Bool-cases, ap, sym, ◌∙◌, ◌≡◌, refl, true, false, String, ◌==◌, eq_iff, some, List, [],
  ◌∷◌, lookup, arith,
}
use xcat.Db.{Result, ok}
use xcat.Ssh.Names.{get_hosts_name_for_node}
use xcat.Ssh.Names.Search.{IsQuiet, wanted, sought-now, get_hosts_name_for_node-sought}
use xcat.Ssh.Boot.{
  boot_devices_map, get_boot_device_map, device_of, first_of_two, get_command, set_command,
  get_boot_device_of, set_boot_device_of, set_device,
}
use xcat.Ssh.{text, ControlInfo, Host, ssh_execute}

-- Editing the description of a machine sets its device, which then is what reading it prints, one
-- line; no editing changes what machines there are.
pub record IsEditor {S : Type 0} (host : Host S) (c : ControlInfo) : Type 0 where
  pub quiet : IsQuiet host c
  pub virt_type : c.virt_type ≡ text "virsh"
  pub set_cmd : String
  pub get_cmd : String
  pub has_set_cmd : (c.cmd_set.set_boot_device ≡ some set_cmd) × ((set_cmd == "") ≡ false)
  pub has_get_cmd : (c.cmd_set.get_boot_device ≡ some get_cmd) × ((get_cmd == "") ≡ false)
  pub device : S → String → String
  pub printed : S → String → List String
  pub edited : S → String → String → S
  pub edit :
      (s : S) (name device hdev : String)
      → wanted quiet s ≡ some name
      → lookup device boot_devices_map ≡ some hdev
      → ssh_execute host (set_command host c set_cmd name hdev) s
        ≡ (ok (printed s name), edited s name hdev)
  pub dump :
      (s : S) (name : String)
      → wanted quiet s ≡ some name
      → ssh_execute host (get_command host c get_cmd name) s ≡ (ok (device s name ∷ "" ∷ []), s)
  pub device-edited :
      (s : S) (name dev hdev : String)
      → wanted quiet s ≡ some name
      → lookup dev boot_devices_map ≡ some hdev
      → device (edited s name hdev) name ≡ hdev
  pub wanted-edited :
      (s : S) (name hdev : String)
      → wanted quiet s ≡ some name
      → wanted quiet (edited s name hdev) ≡ wanted quiet s

-- The map is read backwards as it was read.
device_of-lookup :
    (device hdev : String)
    → lookup device boot_devices_map ≡ some hdev
    → device_of boot_devices_map hdev ≡ some device
unfolding device_of
device_of-lookup device hdev h = elim (Bool-cases ("disk" == device)) [
  | inl disk ↦ as_listed "disk" "hd" disk (ground (arith, disk, h)) refl
  | inr not_disk ↦ elim (Bool-cases ("net" == device)) [
    | inl net ↦ as_listed "net" "network" net (ground (arith, not_disk, net, h)) refl
    | inr not_net ↦ elim (Bool-cases ("cdrom" == device)) [
      | inl cdrom ↦
          as_listed "cdrom" "cdrom" cdrom (ground (arith, not_disk, not_net, cdrom, h)) refl
      | inr not_cdrom ↦ ground (arith, not_disk, not_net, not_cdrom, h)
    ]
  ]
]
  where
    as_listed :
        (d k : String)
        → (d == device) ≡ true
        → k ≡ hdev
        → device_of boot_devices_map k ≡ some d
        → device_of boot_devices_map hdev ≡ some device
    as_listed d k d_is k_is e =
        ap (device_of boot_devices_map) (sym k_is) ∙ e ∙ ap some ((eq_iff d device).0 d_is)

module _ {S : Type 0} {host : Host S} {c : ControlInfo} (editor : IsEditor host c) where
  name-now :
      (s : S) (name : String)
      → wanted editor.quiet s ≡ some name
      → get_hosts_name_for_node host c s ≡ (ok name, s)
  name-now s name e =
      get_hosts_name_for_node-sought editor.quiet s ∙ sought-now editor.quiet 2 s name e

  devices-known : get_boot_device_map c.virt_type ≡ ok boot_devices_map
  unfolding get_boot_device_map
  devices-known = rw editor.virt_type refl

  set_device-edits :
      (s : S) (name device hdev : String)
      → wanted editor.quiet s ≡ some name
      → lookup device boot_devices_map ≡ some hdev
      → set_device host c device s ≡ (ok tt, editor.edited s name hdev)
  unfolding set_device set_boot_device_of
  set_device-edits s name device hdev e known = ground (
    arith,
    name-now s name e,
    devices-known,
    known,
    editor.has_set_cmd.0,
    editor.has_set_cmd.1,
    editor.edit s name device hdev e known,
  )

  get_boot_device_of-reads :
      (s : S) (name : String)
      → wanted editor.quiet s ≡ some name
      → get_boot_device_of host c s ≡ (ok (device_of boot_devices_map (editor.device s name)), s)
  unfolding get_boot_device_of first_of_two
  get_boot_device_of-reads s name e = ground (
    arith,
    name-now s name e,
    devices-known,
    editor.has_get_cmd.0,
    editor.has_get_cmd.1,
    editor.dump s name e,
  )

  -- On a host where editing the description of a machine sets the boot device that reading it
  -- prints, for a node of which a machine is found, set_boot_device to a supported device returns,
  -- and _get_boot_device then gives that device.
  pub get_boot_device_of-set_device :
      (s : S) (name device hdev : String)
      → wanted editor.quiet s ≡ some name
      → lookup device boot_devices_map ≡ some hdev
      → ((set_device host c device s).0 ≡ ok tt)
        × ((get_boot_device_of host c (set_device host c device s).1).0 ≡ ok (some device))
  get_boot_device_of-set_device s name device hdev e known =
      let set = set_device-edits s name device hdev e known in
      let read =
        get_boot_device_of-reads (editor.edited s name hdev) name
          (editor.wanted-edited s name hdev e ∙ e) in
      (
        ap (λ r. r.0) set,
        ap (λ (r : Result Unit × S). (get_boot_device_of host c r.1).0) set
            ∙ ap (λ r. r.0) read
            ∙ ap (λ h. ok (device_of boot_devices_map h))
                (editor.device-edited s name device hdev e known)
            ∙ ap ok (device_of-lookup device hdev known),
      )
