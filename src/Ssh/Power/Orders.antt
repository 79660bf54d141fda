-- ===== src/Ssh/Power/Orders.antt =====
-- The orders of _power_on, _power_off and set_power_state of xcat3/plugins/control/ssh.py, on a host
-- whose lists say what it has and runs.
use mathlib.Core.Path.{subst}
use xcat.Prelude.{
  inl, inr, ◌⊎◌, Bool-cases, ap, sym, ◌∙◌, ◌≡◌, refl, false, String, ◌==◌, eq_iff, some, List,
  if◌then◌else◌, arith,
}
use xcat.Db.{Error, node_not_found, Result, ok, err}
use xcat.Ipmi.{power_on, power_off, reboot, power_error}
use xcat.Ssh.Names.{get_hosts_name_for_node}
use xcat.Ssh.Names.Search.{IsQuiet, wanted, sought-now, sought-Ends, get_hosts_name_for_node-sought}
use xcat.Ssh.Power.{
  is_listed, get_power_status, order, power_off_node, power_on_node, agree, set_power_state,
}
use xcat.Ssh.{ControlInfo, Host, Remote, ◌>>=◌, Remote-cases, command_on, ssh_execute}

-- The command list_running prints what runs, and leaves the host as it is.
pub record IsReporting {S : Type 0} (host : Host S) (c : ControlInfo) : Type 0 where
  pub quiet : IsQuiet host c
  pub running : S → List String
  pub list_running :
      (s : S) (name : String)
      → ssh_execute host (command_on c c.cmd_set.list_running name) s ≡ (ok (running s), s)

ok-pair :
    {S : Type 0} {p q : String} {s t : S}
    → Path (Result String × S) (ok p, s) (ok q, t)
    → (p ≡ q) × (s ≡ t)
ok-pair {p = p} h = (ap (λ r. elim r.0 [ ok a ↦ a | err _ ↦ p ]) h, ap (λ r. r.1) h)

agreed :
    {S : Type 0} (m : Remote S String) (target : String) (s s' : S)
    → (m >>= λ state. agree state target) s ≡ (ok tt, s')
    → m s ≡ (ok target, s')
agreed m target s s' h = elim (Remote-cases (m s)) [
  | inr (x, t, e) ↦ ground (arith, e, h)
  | inl (p, t, e) ↦ elim (Bool-cases (p == target)) [
    | inr differs ↦ ground (arith, e, differs, h)
    | inl same ↦
        let p_is : p ≡ target = (eq_iff p target).0 same in
        let t_is : t ≡ s' = ground (arith, e, same, h) in e ∙ rw (p_is, t_is) refl
  ]
]

module _ {S : Type 0} {host : Host S} {c : ControlInfo} (report : IsReporting host c) where
  abbrev pub state_of : S → String → String
  state_of s name = if is_listed name (report.running s) then power_on else power_off

  -- A search that has found a name finds it again at once.
  pub name-again :
      (s : S) (name : String)
      → wanted report.quiet s ≡ some name
      → get_hosts_name_for_node host c s ≡ (ok name, s)
  name-again s name e =
      get_hosts_name_for_node-sought report.quiet s ∙ sought-now report.quiet 2 s name e

  pub get_power_status-now :
      (s : S) (name : String)
      → wanted report.quiet s ≡ some name
      → get_power_status host c s ≡ (ok (state_of s name), s)
  unfolding get_power_status
  get_power_status-now s name e = ground (arith, name-again s name e, report.list_running s name)

  -- The status is that of a machine that is wanted where the search ends, or there is none.
  status-cases :
      (s : S)
      → ((name : String) × (t : S) × (wanted report.quiet t ≡ some name)
          × (get_power_status host c s ≡ (ok (state_of t name), t)))
        ⊎ ((t : S) × (get_power_status host c s ≡ (err node_not_found, t)))
  unfolding get_power_status
  status-cases s = elim (sought-Ends report.quiet 3 s) [
    | inl (name, t, e, found) ↦
        let here : get_hosts_name_for_node host c s ≡ (ok name, t) =
          get_hosts_name_for_node-sought report.quiet s ∙ e in
        inl (name, t, found, ground (arith, here, report.list_running t name))
    | inr (t, e) ↦
        let nowhere : get_hosts_name_for_node host c s ≡ (err node_not_found, t) =
          get_hosts_name_for_node-sought report.quiet s ∙ e in
        inr (t, ground (arith, nowhere))
  ]

  -- A state that was told is told again.
  pub status-again :
      (s s' : S) (p : String)
      → get_power_status host c s ≡ (ok p, s')
      → get_power_status host c s' ≡ (ok p, s')
  status-again s s' p h = elim (status-cases s) [
    | inl (name, t, found, e) ↦
        let told : (ok p, s') ≡ (ok (state_of t name), t) = sym h ∙ e in
        subst (λ u. get_power_status host c u ≡ (ok p, s')) (sym (ap (λ r. r.1) told))
          (get_power_status-now t name found ∙ sym told)
    | inr (t, e) ↦ ground (arith, h, e)
  ]

  -- An order is given where a machine is wanted, and ends with the status of one, or it raises.
  order-cases :
      (cmd target : String) (s : S)
      → ((v : S) × (p : String) × (get_power_status host c v ≡ (ok p, v))
          × (order host c cmd target s ≡ (ok (if p == target then p else power_error), v)))
        ⊎ ((e : Error) × (v : S) × (order host c cmd target s ≡ (err e, v)))
  unfolding order
  order-cases cmd target s = elim (sought-Ends report.quiet 3 s) [
    | inr (t, e) ↦
        let nowhere : get_hosts_name_for_node host c s ≡ (err node_not_found, t) =
          get_hosts_name_for_node-sought report.quiet s ∙ e in
        inr (node_not_found, t, ground (arith, nowhere))
    | inl (name, t, e, found) ↦
        let here : get_hosts_name_for_node host c s ≡ (ok name, t) =
          get_hosts_name_for_node-sought report.quiet s ∙ e in
        elim (Remote-cases (ssh_execute host (command_on c cmd name) t)) [
          | inr (x, u, failed) ↦ inr (x, u, ground (arith, here, failed))
          | inl (lines, u, run) ↦ elim (status-cases u) [
            | inl (n, v, f, status) ↦
                inl (v, state_of v n, get_power_status-now v n f, ground (arith, here, run, status))
            | inr (v, status) ↦ inr (node_not_found, v, ground (arith, here, run, status))
          ]
        ]
  ]

  -- An order that returns its target has been followed by a status that says so.
  order-told :
      (cmd target : String) (s s' : S)
      → (power_error == target) ≡ false
      → order host c cmd target s ≡ (ok target, s')
      → get_power_status host c s' ≡ (ok target, s')
  order-told cmd target s s' sane h = elim (order-cases cmd target s) [
    | inr (x, v, e) ↦ ground (arith, h, e)
    | inl (v, p, status, e) ↦
        let (same, place) = ok-pair (sym h ∙ e) in
        elim (Bool-cases (p == target)) [
          | inl met ↦
              subst (λ u. get_power_status host c u ≡ (ok target, u)) (sym place)
                (subst (λ q. get_power_status host c v ≡ (ok q, v)) ((eq_iff p target).0 met)
                  status)
          | inr missed ↦ ground (arith, eq_iff power_error target, rw missed at same, sane)
        ]
  ]

  power_off_node-told :
      (s s' : S)
      → power_off_node host c s ≡ (ok power_off, s')
      → get_power_status host c s' ≡ (ok power_off, s')
  unfolding power_off_node
  power_off_node-told s s' h = elim (status-cases s) [
    | inr (t, e) ↦ ground (arith, h, e)
    | inl (name, t, found, e) ↦ elim (Bool-cases (state_of t name == power_off)) [
      | inl off ↦
          let stays : power_off_node host c s ≡ (ok (state_of t name), t) =
            ground (arith, e, off) in
          let (same, place) = ok-pair (sym h ∙ stays) in
          subst (λ u. get_power_status host c u ≡ (ok power_off, u)) (sym place)
            (subst (λ q. get_power_status host c t ≡ (ok q, t)) (sym same)
              (get_power_status-now t name found))
      | inr on ↦ order-told c.cmd_set.stop_cmd power_off t s' refl (ground (arith, e, on, h))
    ]
  ]

  power_on_node-told :
      (s s' : S)
      → power_on_node host c s ≡ (ok power_on, s')
      → get_power_status host c s' ≡ (ok power_on, s')
  unfolding power_on_node
  power_on_node-told s s' h = elim (status-cases s) [
    | inr (t, e) ↦ ground (arith, h, e)
    | inl (name, t, found, e) ↦ elim (Bool-cases (state_of t name == power_on)) [
      | inl on ↦ elim (Remote-cases (power_off_node host c t)) [
        | inl (p, u, turned) ↦
            order-told c.cmd_set.start_cmd power_on u s' refl (ground (arith, e, on, turned, h))
        | inr (x, u, failed) ↦ ground (arith, e, on, failed, h)
      ]
      | inr off ↦ order-told c.cmd_set.start_cmd power_on t s' refl (ground (arith, e, off, h))
    ]
  ]

  -- The state that a request for a state, or for a reboot, asks for
  abbrev pub asked : String → String
  asked pstate = if pstate == power_off then power_off else power_on

  -- On a host that lists its machines, their cards and what runs without changing, if
  -- set_power_state returns, then _get_power_status gives off after a request for off, and on
  -- after a request for on or for a reboot.
  pub set_power_state-told :
      (pstate : String) (s s' : S)
      → set_power_state host c pstate s ≡ (ok tt, s')
      → get_power_status host c s' ≡ (ok (asked pstate), s')
  unfolding set_power_state
  set_power_state-told pstate s s' h = elim (Bool-cases (pstate == power_on)) [
    | inl on ↦
        let e : pstate ≡ power_on = (eq_iff pstate power_on).0 on in
        subst (λ p. get_power_status host c s' ≡ (ok (asked p), s')) (sym e)
          (power_on_node-told s s'
            (agreed (power_on_node host c) power_on s s' (ground (arith, on, h))))
    | inr not_on ↦ elim (Bool-cases (pstate == power_off)) [
      | inl off ↦ rw off (
          power_off_node-told s s'
            (agreed (power_off_node host c) power_off s s' (ground (arith, not_on, off, h))))
      | inr not_off ↦ elim (Bool-cases (pstate == reboot)) [
        | inl again ↦ rw not_off (
            power_on_node-told s s' (
              agreed (power_on_node host c) power_on s s'
                (ground (arith, not_on, not_off, again, h))))
        | inr neither ↦ ground (arith, not_on, not_off, neither, h)
      ]
    ]
  ]
