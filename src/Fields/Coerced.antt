-- ===== src/Fields/Coerced.antt =====
-- What the types of fields let through: xcat3/objects/fields.py.
use xcat.Prelude.{
  inl, inr, Bool-cases, ℕ, ◌≡◌, refl, ap, ◌∙◌, true, String, Option, none, some, [], Dict,
  write_all, arith, eqb,
}
use xcat.Db.{Result-cases, ok}
use xcat.Ssh.Texts.{lower}
use xcat.Ssh.Texts.Case.{lower-lower}
use xcat.Fields.{
  Ip, Value, text, table, pairs, address, network, callable, other, nothing, Packages, unicode,
  dict_of, FieldType, flexible_dict, mac_address, ip_address, ipv4_address, ipv6_address,
  ipv4_and_v6_address, ip_network, ipv4_network, ipv6_network, coerce_dict, coerce_mac, coerce_ip,
  coerce_version, coerce_either, coerce_network, coerce, to_primitive,
}

-- The documented behaviour of the packages: an address prints as a text that stands for it, a network
-- too, also where its version is asked for, and the case of a MAC address does not matter.
pub record IsDocumented (p : Packages) : Type 0 where
  pub address_text : (s : String) (a : Ip) → p.ip_address s ≡ ok a → p.ip_address a.text ≡ ok a
  pub network_text :
      (version : Option ℕ) (v : Value) (n : String)
      → p.ip_network version v ≡ ok (some n)
      → p.ip_network version (text n) ≡ ok (some n)
  pub mac_case : (s : String) → p.is_valid_mac (lower s) ≡ p.is_valid_mac s

module _ (p : Packages) where
  -- What the values of a type are
  abbrev pub HasType : FieldType → Value → Type 0
  HasType flexible_dict w = (d : Dict String) × (w ≡ table d)
  HasType mac_address w = (s : String) × (w ≡ text s) × (p.is_valid_mac s ≡ true) × (lower s ≡ s)
  HasType ip_address w = (a : Ip) × (w ≡ address a)
  HasType ipv4_address w = (a : Ip) × (w ≡ address a) × (a.version ≡ 4)
  HasType ipv6_address w = (a : Ip) × (w ≡ address a) × (a.version ≡ 6)
  HasType ipv4_and_v6_address w = (a : Ip) × (p.ip_address (unicode w) ≡ ok a)
  HasType ip_network w = (n : String) × (w ≡ network n)
  HasType ipv4_network w = (n : String) × (w ≡ network n)
  HasType ipv6_network w = (n : String) × (w ≡ network n)

  -- What is read back of a value: IPV4AndV6Address gives the text that it finds.
  abbrev pub read_back : FieldType → Value → Value
  read_back ipv4_and_v6_address w = text (unicode w)
  read_back t w = w

  abbrev pub IsStored : FieldType → Value → Type 0
  IsStored t w = HasType t w × (coerce p t (to_primitive t w) ≡ ok (read_back t w))

  module _ (law : IsDocumented p) where
    dict_of-table : (v w : Value) → dict_of v ≡ ok w → (d : Dict String) × (w ≡ table d)
    unfolding dict_of
    dict_of-table (table d) w h = (d, ground (arith, h))
    dict_of-table (pairs ps) w h = (write_all ps [], ground (arith, h))
    dict_of-table (text s) w h = ([], ground (arith, h))
    dict_of-table nothing w h = cc
    dict_of-table (address a) w h = cc
    dict_of-table (network n) w h = cc
    dict_of-table (callable v) w h = cc
    dict_of-table (other s) w h = cc

    dict-table : (v w : Value) → coerce_dict p v ≡ ok w → (d : Dict String) × (w ≡ table d)
    unfolding coerce_dict
    dict-table (text s) w h = elim (Result-cases (p.literal_eval s)) [
      | inr (e, bad) ↦ ground (arith, bad, h)
      | inl (u, good) ↦ dict_of-table u w (ground (arith, good, h))
    ]
    dict-table (table d) w h = dict_of-table (table d) w h
    dict-table (pairs ps) w h = dict_of-table (pairs ps) w h
    dict-table nothing w h = dict_of-table nothing w h
    dict-table (address a) w h = dict_of-table (address a) w h
    dict-table (network n) w h = dict_of-table (network n) w h
    dict-table (callable v) w h = dict_of-table (callable v) w h
    dict-table (other s) w h = dict_of-table (other s) w h

    mac-text : (s : String) → p.is_valid_mac s ≡ true → coerce_mac p (text s) ≡ ok (text (lower s))
    unfolding coerce_mac
    mac-text s good = ground (arith, good)

    mac-valid :
        (v w : Value)
        → coerce_mac p v ≡ ok w
        → (s : String) × (w ≡ text (lower s)) × (p.is_valid_mac s ≡ true)
    unfolding coerce_mac
    mac-valid (text s) w h = elim (Bool-cases (p.is_valid_mac s)) [
      | inl good ↦ (s, ground (arith, good, h), good)
      | inr bad ↦ ground (arith, bad, h)
    ]
    mac-valid nothing w h = cc
    mac-valid (table d) w h = cc
    mac-valid (pairs ps) w h = cc
    mac-valid (address a) w h = cc
    mac-valid (network n) w h = cc
    mac-valid (callable v) w h = cc
    mac-valid (other s) w h = cc

    mac-IsStored : (v w : Value) → coerce p mac_address v ≡ ok w → IsStored mac_address w
    unfolding coerce to_primitive
    mac-IsStored v w h =
        let (s, is, good) = mac-valid v w h in
        let still = law.mac_case s ∙ good in
        rw is (
          (lower s, refl, still, lower-lower s),
          mac-text (lower s) still ∙ ap (λ t. ok (text t)) (lower-lower s),
        )

    version-address :
        (n : ℕ) (v w : Value)
        → coerce_version p n v ≡ ok w
        → (a : Ip) × (w ≡ address a) × (a.version ≡ n) × (coerce_ip p v ≡ ok a)
    unfolding coerce_version
    version-address n v w h = elim (Result-cases (coerce_ip p v)) [
      | inr (e, bad) ↦ ground (arith, bad, h)
      | inl (a, good) ↦ elim (Bool-cases (eqb a.version n)) [
        | inr other' ↦ ground (arith, good, other', h)
        | inl same ↦ (a, ground (arith, good, same, h), ground (arith, same), good)
      ]
    ]

    version-IsStored :
        (n : ℕ) (v w : Value)
        → coerce_version p n v ≡ ok w
        → ((a : Ip) × (w ≡ address a) × (a.version ≡ n))
          × (coerce_version p n (text (unicode w)) ≡ ok w)
    unfolding coerce_version coerce_ip
    version-IsStored n v w h =
        let (a, is, right, good) = version-address n v w h in
        let again = law.address_text (unicode v) a good in
        rw is ((a, refl, right), ground (arith, again, right))

    network-IsStored :
        (version : Option ℕ) (v w : Value)
        → coerce_network p version v ≡ ok w
        → ((n : String) × (w ≡ network n)) × (coerce_network p version (text (unicode w)) ≡ ok w)
    unfolding coerce_network
    network-IsStored version v w h = elim (Result-cases (p.ip_network version v)) [
      | inr (e, bad) ↦ ground (arith, bad, h)
      | inl (none, bad) ↦ ground (arith, bad, h)
      | inl (some n, good) ↦
          let is : w ≡ network n = ground (arith, good, h) in
          let again = law.network_text version v n good in rw is ((n, refl), ground (arith, again))
    ]

    dict-IsStored : (v w : Value) → coerce p flexible_dict v ≡ ok w → IsStored flexible_dict w
    unfolding coerce to_primitive coerce_dict dict_of
    dict-IsStored v w h = let (d, is) = dict-table v w h in rw is ((d, refl), refl)

    -- What a type of fields lets through is of that type: a dictionary, a valid MAC address in
    -- lower case, an address of the version that is asked for, a network, or, for
    -- IPV4AndV6Address, a value that stands for an address; and what is stored of it is let
    -- through again and gives the same value, which for IPV4AndV6Address is its text. It is for
    -- packages that print addresses and networks as documented and do not mind the case of a MAC
    -- address.
    pub coerce-IsStored : (t : FieldType) (v w : Value) → coerce p t v ≡ ok w → IsStored t w
    unfolding coerce to_primitive coerce_either coerce_ip
    coerce-IsStored flexible_dict v w h = dict-IsStored v w h
    coerce-IsStored mac_address v w h = mac-IsStored v w h
    coerce-IsStored ipv4_address v w h = version-IsStored 4 v w h
    coerce-IsStored ipv6_address v w h = version-IsStored 6 v w h
    coerce-IsStored ip_network v w h = network-IsStored none v w h
    coerce-IsStored ipv4_network v w h = network-IsStored (some 4) v w h
    coerce-IsStored ipv6_network v w h = network-IsStored (some 6) v w h
    coerce-IsStored ip_address v w h = elim (Result-cases (p.ip_address (unicode v))) [
      | inr (e, bad) ↦ ground (arith, bad, h)
      | inl (a, good) ↦
          let is : w ≡ address a = ground (arith, good, h) in
          let again = law.address_text (unicode v) a good in
          rw is ((a, refl), ground (arith, again))
    ]
    coerce-IsStored ipv4_and_v6_address v w h = elim (Result-cases (p.ip_address (unicode v))) [
      | inr (e, bad) ↦ ground (arith, bad, h)
      | inl (a, good) ↦
          let is : w ≡ v = ground (arith, good, h) in rw is ((a, good), ground (arith, good, h))
    ]
