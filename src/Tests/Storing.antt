-- ===== src/Tests/Storing.antt =====
-- Values of fields, with packages that know one address, one network and two spellings of a MAC address.
use xcat.Prelude.{
  inl, inr, Bool-cases, ◌≡◌, refl, String, ◌==◌, none, some, [], if◌then◌else◌, arith,
}
use xcat.Db.{value_error, ok, err}
use xcat.Ssh.Texts.{lower}
use xcat.Ssh.Texts.Case.{lower-lower}
use xcat.Fields.{
  Ip, text, table, address, Packages, unicode, ipv4_address, ipv6_address, flexible_dict, coerce,
  coerce_version, coerce_ip, coerce_dict, dict_of,
}
use xcat.Fields.Coerced.{IsDocumented, IsStored, coerce-IsStored}

abbrev pub host_ip : Ip
host_ip = record { version = 4; text = "10.0.0.1" }

abbrev pub packages : Packages
packages = record {
  literal_eval = λ s. if s == "{}" then ok (table []) else err value_error;
  ip_address = λ s. if s == "10.0.0.1" then ok host_ip else err value_error;
  ip_network = λ version v. ok (if unicode v == "10.0.0.0/8" then some "10.0.0.0/8" else none);
  is_valid_mac = λ s. lower s == "aa";
}

known-address : (s : String) (a : Ip) → packages.ip_address s ≡ ok a → a ≡ host_ip
known-address s a h = elim (Bool-cases (s == "10.0.0.1")) [
  | inl e ↦ let out : packages.ip_address s ≡ ok host_ip = rw e refl in ground (arith, out, h)
  | inr e ↦ let out : packages.ip_address s ≡ err value_error = rw e refl in ground (arith, out, h)
]

known-network :
    (s n : String)
    → (if s == "10.0.0.0/8" then some "10.0.0.0/8" else none) ≡ some n
    → n ≡ "10.0.0.0/8"
known-network s n h = elim (Bool-cases (s == "10.0.0.0/8")) [
  | inl e ↦ ground (arith, e, h)
  | inr e ↦ ground (arith, e, h)
]

pub packages-IsDocumented : IsDocumented packages
packages-IsDocumented = record {
  address_text = λ s a h. rw (known-address s a h) refl;
  network_text = λ version v n h.
      let found : (if unicode v == "10.0.0.0/8" then some "10.0.0.0/8" else none) ≡ some n =
        ground (arith, h) in
      rw (known-network (unicode v) n found) refl;
  mac_case = λ s. rw (lower-lower s) refl;
}

ip-refused : coerce packages ipv6_address (text "10.0.0.1") ≡ err value_error
unfolding coerce coerce_version coerce_ip
ip-refused = refl

ip-taken : coerce packages ipv4_address (text "10.0.0.1") ≡ ok (address host_ip)
unfolding coerce coerce_version coerce_ip
ip-taken = refl

empty-taken : coerce packages flexible_dict (text "{}") ≡ ok (table [])
unfolding coerce coerce_dict dict_of
empty-taken = refl

coerce-IsStored_example : IsStored packages ipv4_address (address host_ip)
coerce-IsStored_example =
    coerce-IsStored packages packages-IsDocumented ipv4_address (text "10.0.0.1") (address host_ip)
      ip-taken
