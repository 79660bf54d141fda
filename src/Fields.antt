-- ===== src/Fields.antt =====
-- The types of the fields of objects: xcat3/objects/fields.py. A value is what an attribute is set to;
-- the packages ast, ipaddress, netaddr and oslo.utils are parameters. Schemas are left out.
pub mod Coerced
use xcat.Prelude.{
  ℕ, Bool, true, false, String, ◌==◌, Option, none, some, List, [], ◌∷◌, Dict, write_all, eqb,
  if◌then◌else◌,
}
use xcat.Db.{Error, invalid_mac, type_error, value_error, Result, ok, err}
use xcat.Conductor.{bind}
use xcat.Api.Values.{validate_mac}

-- An object of the package ipaddress: its version and its text
pub record Ip : Type 0 where
  pub version : ℕ
  pub text : String

-- Values of Python, as far as the types tell them apart; a callable is given with what it returns.
pub data Value : Type 0 where
  nothing : Value
  text : String → Value
  table : Dict String → Value
  pairs : List (String × String) → Value
  address : Ip → Value
  network : String → Value
  callable : Value → Value
  other : String → Value

-- The packages: ast.literal_eval, ipaddress.ip_address, netaddr.IPNetwork with the version that is asked
-- for, or none where it raises AddrFormatError, and netutils.is_valid_mac
pub record Packages : Type 0 where
  pub literal_eval : String → Result Value
  pub ip_address : String → Result Ip
  pub ip_network : Option ℕ → Value → Result (Option String)
  pub is_valid_mac : String → Bool

-- `unicode(value)`, as far as it matters
abbrev pub unicode : Value → String
unicode nothing = "None"
unicode (text s) = s
unicode (table d) = "{}"
unicode (pairs ps) = "[]"
unicode (address a) = a.text
unicode (network n) = n
unicode (callable v) = "function"
unicode (other s) = s

-- `dict(value)`
unfoldable pub dict_of : Value → Result Value
dict_of (table d) = ok (table d)
dict_of (pairs ps) = ok (table (write_all ps []))
dict_of (text s) = if s == "" then ok (table []) else err value_error
dict_of _ = err type_error

-- The classes with a `coerce` of their own
pub data FieldType : Type 0 where
  flexible_dict mac_address ip_address ipv4_address ipv6_address ipv4_and_v6_address : FieldType
  ip_network ipv4_network ipv6_network : FieldType

-- FlexibleDictField._null, where `null` is that of its base class, whose value is dropped
unfoldable pub null_of : Bool → Result Value → Result Value
null_of true null = ok (table [])
null_of false null = elim null [ err e ↦ err e | ok _ ↦ ok nothing ]

-- StringAcceptsCallable.coerce, over the `coerce` of the base class
unfoldable pub coerce_callable : (Value → Result Value) → Value → Result Value
coerce_callable string (callable v) = string v
coerce_callable string v = string v

module _ (p : Packages) where
  -- FlexibleDict.coerce
  unfoldable pub coerce_dict : Value → Result Value
  unfolding dict_of
  coerce_dict (text s) = bind (p.literal_eval s) dict_of
  coerce_dict v = dict_of v

  -- MACAddress.coerce; is_valid_mac takes texts only.
  unfoldable pub coerce_mac : Value → Result Value
  unfolding validate_mac
  coerce_mac (text s) = bind (validate_mac p.is_valid_mac s) λ mac. ok (text mac)
  coerce_mac v = err invalid_mac

  -- IPAddress.coerce
  unfoldable pub coerce_ip : Value → Result Ip
  coerce_ip v = p.ip_address (unicode v)

  -- IPV4Address.coerce and IPV6Address.coerce
  unfoldable pub coerce_version : ℕ → Value → Result Value
  unfolding coerce_ip
  coerce_version version v =
      bind (coerce_ip v) λ a. if eqb a.version version then ok (address a) else err value_error

  -- IPV4AndV6Address.coerce, which gives the value itself
  unfoldable pub coerce_either : Value → Result Value
  unfolding coerce_ip
  coerce_either v =
      bind (coerce_ip v)
        λ a. if eqb a.version 4 then ok v else if eqb a.version 6 then ok v else err value_error

  -- IPNetwork.coerce, IPV4Network.coerce and IPV6Network.coerce
  unfoldable pub coerce_network : Option ℕ → Value → Result Value
  coerce_network version v =
      bind (p.ip_network version v) λ n. elim n [ none ↦ err value_error | some s ↦ ok (network s) ]

  unfoldable pub coerce : FieldType → Value → Result Value
  unfolding coerce_dict coerce_mac coerce_ip coerce_version coerce_either coerce_network
  coerce flexible_dict v = coerce_dict v
  coerce mac_address v = coerce_mac v
  coerce ip_address v = bind (coerce_ip v) λ a. ok (address a)
  coerce ipv4_address v = coerce_version 4 v
  coerce ipv6_address v = coerce_version 6 v
  coerce ipv4_and_v6_address v = coerce_either v
  coerce ip_network v = coerce_network none v
  coerce ipv4_network v = coerce_network (some 4) v
  coerce ipv6_network v = coerce_network (some 6) v

-- IPAddress.to_primitive, which the types of networks inherit; the other types keep the value.
unfoldable pub to_primitive : FieldType → Value → Value
to_primitive flexible_dict v = v
to_primitive mac_address v = v
to_primitive t v = text (unicode v)
