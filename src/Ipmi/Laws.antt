-- ===== src/Ipmi/Laws.antt =====
-- Power requests of xcat3/plugins/control/ipmi.py, by the replies of the BMC.
use xcat.Prelude.{
  inl, inr, ◌⊎◌, Option-cases, ap, ℕ, ◌≡◌, refl, true, String, eq_iff, Option, some, arith, Dict,
  lookup, is_text,
}
use xcat.Db.{Result, ok, err}
use xcat.Ipmi.{Pyghmi, exchange, switch, power_on, power_off, set_power_state, powered}

module _ (p : Pyghmi) (info : Dict String) where
  abbrev pub connection : Option ℕ
  connection =
      p.command (lookup "bmc_address" info) (lookup "bmc_username" info)
        (lookup "bmc_password" info)

  -- An exchange that returns has connected and has had the reply.
  exchange-ok :
      (order : ℕ → Option (Dict String)) (ret : Dict String)
      → exchange p info order ≡ ok ret
      → (session : ℕ) × (order session ≡ some ret)
  unfolding exchange
  exchange-ok order ret h = elim (Option-cases connection) [
    | inl failed ↦ ground (arith, failed)
    | inr (session, connected) ↦ (session, answered session connected)
  ]
    where
      answered : (session : ℕ) → connection ≡ some session → order session ≡ some ret
      answered session connected = elim (Option-cases (order session)) [
        | inl failed ↦ ground (arith, failed, connected)
        | inr (r, e) ↦ elim (Option-cases (p.logout session)) [
          | inl failed ↦ ground (arith, failed, connected, e)
          | inr (u, l) ↦ ground (arith, l, connected, e)
        ]
      ]

  -- A request for on or off that returns has had a reply that says so.
  switch-agrees :
      (target state : String)
      → switch p target info ≡ ok state
      → (session : ℕ) × (ret : Dict String) × (p.set_power session target ≡ some ret)
        × (is_text (powered ret) target ≡ true)
  unfolding switch
  switch-agrees target state h = answered (exchange p info order) refl
    where
      order : ℕ → Option (Dict String)
      order session = p.set_power session target

      answered :
          (r : Result (Dict String))
          → exchange p info order ≡ r
          → (session : ℕ) × (ret : Dict String) × (order session ≡ some ret)
            × (is_text (powered ret) target ≡ true)
      answered (err e) failed = ground (arith, failed)
      answered (ok ret) replied =
          let (session, e) = exchange-ok order ret replied in
          (session, ret, e, ground (arith, replied))

module _ (p : Pyghmi) (info : Dict String) where
  -- If set_power_state to on or off returns, the BMC has answered the order for that state in some
  -- session, and the answer names that state as the state that it has or, where it gives none, as
  -- the pending one.
  pub set_power_state-agrees :
      (target : String)
      → (target ≡ power_on) ⊎ (target ≡ power_off)
      → set_power_state p info target ≡ ok tt
      → (session : ℕ) × (ret : Dict String) × (p.set_power session target ≡ some ret)
        × (is_text (powered ret) target ≡ true)
  unfolding set_power_state
  set_power_state-agrees target known h = told (switch p target info) refl
    where
      told :
          (r : Result String)
          → switch p target info ≡ r
          → (session : ℕ) × (ret : Dict String) × (p.set_power session target ≡ some ret)
            × (is_text (powered ret) target ≡ true)
      told (ok state) e = switch-agrees p info target state e
      told (err x) e = elim known [
        | inl on ↦ ground (arith, e, h, ap (λ t. switch p t info) on, eq_iff target "on")
        | inr off ↦
            ground
              (arith, e, h, ap (λ t. switch p t info) off, eq_iff target "on", eq_iff target "off")
      ]
