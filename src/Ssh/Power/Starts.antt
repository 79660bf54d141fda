-- ===== src/Ssh/Power/Starts.antt =====
-- set_power_state of xcat3/plugins/control/ssh.py on a hypervisor that starts and stops what it is
-- told to.
use xcat.Prelude.{
  ap, ◌∙◌, inl, inr, Bool-cases, ◌≡◌, Bool, true, false, String, some, List, if◌then◌else◌, arith,
}
use xcat.Db.{ok}
use xcat.Ipmi.{power_on, power_off, reboot}
use xcat.Ssh.Names.Search.{wanted}
use xcat.Ssh.Power.{
  is_listed, get_power_status, order, power_off_node, power_on_node, set_power_state,
}
use xcat.Ssh.Power.Orders.{IsReporting, name-again, get_power_status-now}
use xcat.Ssh.{ControlInfo, Host, command_on, ssh_execute}

-- The command `start` starts a machine that does not run, `destroy` stops one that does, and neither
-- changes what machines there are and which cards they have.
pub record IsHypervisor {S : Type 0} (host : Host S) (c : ControlInfo) : Type 0 where
  pub report : IsReporting host c
  pub printed : S → String → List String
  pub started : S → String → S
  pub stopped : S → String → S
  pub start :
      (s : S) (name : String)
      → wanted report.quiet s ≡ some name
      → is_listed name (report.running s) ≡ false
      → ssh_execute host (command_on c c.cmd_set.start_cmd name) s
        ≡ (ok (printed s name), started s name)
  pub stop :
      (s : S) (name : String)
      → wanted report.quiet s ≡ some name
      → is_listed name (report.running s) ≡ true
      → ssh_execute host (command_on c c.cmd_set.stop_cmd name) s
        ≡ (ok (printed s name), stopped s name)
  pub running-started :
      (s : S) (name : String)
      → wanted report.quiet s ≡ some name
      → is_listed name (report.running (started s name)) ≡ true
  pub running-stopped :
      (s : S) (name : String)
      → wanted report.quiet s ≡ some name
      → is_listed name (report.running (stopped s name)) ≡ false
  pub wanted-started :
      (s : S) (name : String)
      → wanted report.quiet s ≡ some name
      → wanted report.quiet (started s name) ≡ wanted report.quiet s
  pub wanted-stopped :
      (s : S) (name : String)
      → wanted report.quiet s ≡ some name
      → wanted report.quiet (stopped s name) ≡ wanted report.quiet s

module _ {S : Type 0} {host : Host S} {c : ControlInfo} (virsh : IsHypervisor host c) where
  abbrev running : S → String → Bool
  running s name = is_listed name (virsh.report.running s)

  status-is :
      (s : S) (name : String) (up : Bool)
      → wanted virsh.report.quiet s ≡ some name
      → running s name ≡ up
      → get_power_status host c s ≡ (ok (if up then power_on else power_off), s)
  status-is s name up e h =
      get_power_status-now virsh.report s name e
      ∙ ap (λ b. (ok (if b then power_on else power_off), s)) h

  started-lem :
      (s : S) (name : String)
      → wanted virsh.report.quiet s ≡ some name
      → running s name ≡ false
      → order host c c.cmd_set.start_cmd power_on s ≡ (ok power_on, virsh.started s name)
  unfolding order
  started-lem s name e down =
      let still = virsh.wanted-started s name e ∙ e in
      ground (
        arith,
        name-again virsh.report s name e,
        virsh.start s name e down,
        status-is (virsh.started s name) name true still (virsh.running-started s name e),
      )

  stopped-lem :
      (s : S) (name : String)
      → wanted virsh.report.quiet s ≡ some name
      → running s name ≡ true
      → order host c c.cmd_set.stop_cmd power_off s ≡ (ok power_off, virsh.stopped s name)
  unfolding order
  stopped-lem s name e up =
      let still = virsh.wanted-stopped s name e ∙ e in
      ground (
        arith,
        name-again virsh.report s name e,
        virsh.stop s name e up,
        status-is (virsh.stopped s name) name false still (virsh.running-stopped s name e),
      )

  -- The host after a machine has been turned off, or on
  abbrev pub turned_off : S → String → S
  turned_off s name = if running s name then virsh.stopped s name else s

  abbrev pub turned_on : S → String → S
  turned_on s name = virsh.started (turned_off s name) name

  power_off_node-turns :
      (s : S) (name : String)
      → wanted virsh.report.quiet s ≡ some name
      → power_off_node host c s ≡ (ok power_off, turned_off s name)
  unfolding power_off_node
  power_off_node-turns s name e = elim (Bool-cases (running s name)) [
    | inl up ↦ ground (arith, status-is s name true e up, up, stopped-lem s name e up)
    | inr down ↦ ground (arith, status-is s name false e down, down)
  ]

  power_on_node-turns :
      (s : S) (name : String)
      → wanted virsh.report.quiet s ≡ some name
      → power_on_node host c s ≡ (ok power_on, turned_on s name)
  unfolding power_on_node
  power_on_node-turns s name e = elim (Bool-cases (running s name)) [
    | inl up ↦
        let still = virsh.wanted-stopped s name e ∙ e in
        ground (
          arith,
          status-is s name true e up,
          up,
          power_off_node-turns s name e,
          started-lem (virsh.stopped s name) name still (virsh.running-stopped s name e),
        )
    | inr down ↦ ground (arith, status-is s name false e down, down, started-lem s name e down)
  ]

  -- On a hypervisor that starts and stops machines as told and lists what it has, for a node of
  -- which a machine is found at the first look, set_power_state to off, to on and to reboot each
  -- return, off leaving the host with that machine stopped, on and reboot with it stopped if it
  -- ran and then started.
  pub set_power_state-turns :
      (s : S) (name : String)
      → wanted virsh.report.quiet s ≡ some name
      → (set_power_state host c power_off s ≡ (ok tt, turned_off s name))
        × (set_power_state host c power_on s ≡ (ok tt, turned_on s name))
        × (set_power_state host c reboot s ≡ (ok tt, turned_on s name))
  unfolding set_power_state
  set_power_state-turns s name e =
      let off = power_off_node-turns s name e in
      let on = power_on_node-turns s name e in
      (ground (arith, off), ground (arith, on), ground (arith, on))
