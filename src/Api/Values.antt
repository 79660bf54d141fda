-- ===== src/Api/Values.antt =====
-- Values of a request: the types of xcat3/api/controllers/v1/types.py for names, addresses and
-- patches, with is_valid_logical_name and validate_and_normalize_mac of xcat3/common/utils.py. A value
-- is a text, and `validate` is what its type makes of it.
use Prim.Native.Char.{Char, code}
use Prim.Native.String
use Prim.Native.String.{String, [], ◌∷◌, count}
use xcat.Prelude.{
  ℕ, ◌≡◌, Bool, true, false, not, ◌&&◌, ◌||◌, ◌==◌, leb, ltb, eqb, Option, none, some, List,
  contains, arith, if◌then◌else◌, is_none,
}
use xcat.Db.{
  invalid_name, invalid_mac, invalid_uuid, value_error, index_error, client_side_error, Result, ok,
  err,
}
use xcat.Conductor.{bind}
use xcat.Ssh.Texts.{lower}
use xcat.Api.Patch.{Patch, split_from}

abbrev between : ℕ → ℕ → Char → Bool
between low high c = leb low (code c) && leb (code c) high

-- `[A-Z0-9-._~]`, whatever the case
unfoldable pub is_name_char : Char → Bool
is_name_char c =
    between 65 90 c
    || between 97 122 c
    || between 48 57 c
    || between 45 46 c
    || eqb (code c) 95
    || eqb (code c) 126

-- `[A-Z0-9-._~]*$`, where `$` is the end of the text or the place before a last line feed
unfoldable pub rest_is_name : String → Bool
unfolding is_name_char
rest_is_name [] = true
rest_is_name (c ∷ s) = is_name_char c && rest_is_name s || eqb (code c) 10 && s == ""

-- _is_valid_logical_name_re
unfoldable pub matches_name : String → Bool
unfolding rest_is_name is_name_char
matches_name [] = false
matches_name (c ∷ s) = is_name_char c && rest_is_name s

-- utils.is_valid_logical_name, of a text
unfoldable pub is_valid_logical_name : String → Bool
unfolding matches_name
is_valid_logical_name name = not (ltb 255 (count name)) && matches_name name

-- NameType.validate, and UuidOrNameType.validate
unfoldable pub validate_name : String → Result String
validate_name value = if is_valid_logical_name value then ok value else err invalid_name

-- utils.validate_and_normalize_mac and MacAddressType.validate, over is_valid_mac of oslo.utils
unfoldable pub validate_mac : (String → Bool) → String → Result String
validate_mac is_valid_mac value = if is_valid_mac value then ok (lower value) else err invalid_mac

-- UuidType.validate, over is_uuid_like of oslo.utils
unfoldable pub validate_uuid : (String → Bool) → String → Result String
validate_uuid is_uuid_like value = if is_uuid_like value then ok value else err invalid_uuid

-- The package ipaddress: which texts are addresses
pub record Addresses : Type 0 where
  pub is_ipv4 : String → Bool
  pub is_ipv6 : String → Bool

-- IPv4AddressType.validate
unfoldable pub validate_ipv4 : Addresses → String → Result String
validate_ipv4 a value = if a.is_ipv4 value then ok value else err value_error

-- IPv6AddressType.validate
unfoldable pub validate_ipv6 : Addresses → String → Result String
validate_ipv6 a value = if a.is_ipv6 value then ok value else err value_error

-- IPAddressType.validate
unfoldable pub validate_ip : Addresses → String → Result String
validate_ip a value =
    if a.is_ipv6 value then ok value else if a.is_ipv4 value then ok value else err value_error

-- `frombasetype` of a type whose `validate` is given
abbrev pub frombasetype : (String → Result String) → Option String → Result (Option String)
frombasetype validate none = ok none
frombasetype validate (some value) = bind (validate value) λ v. ok (some v)

-- JsonPatchType.internal_attrs
abbrev pub internal_attrs : List String
internal_attrs =
    List.◌∷◌ "/created_at"
      (List.◌∷◌ "/id" (List.◌∷◌ "/name" (List.◌∷◌ "/updated_at" (List.◌∷◌ "/uuid" List.[]))))

-- JsonPatchType.non_removable_attrs, for the fields of a type and whether each is mandatory
unfoldable pub non_removable_attrs : List (String × Bool) → List String
non_removable_attrs List.[] = List.[]
non_removable_attrs (List.◌∷◌ (name, mandatory) fields) =
    let rest = non_removable_attrs fields in
    if mandatory then List.◌∷◌ (String.◌++◌ "/" name) rest else rest

-- `'/' + path.split('/')[1]`
unfoldable pub first_attr : String → Result String
first_attr path = elim (split_from "" path) [
  | List.[] ↦ err index_error
  | List.◌∷◌ a parts ↦ elim parts [
    | List.[] ↦ err index_error
    | List.◌∷◌ b more ↦ ok (String.◌++◌ "/" b)
  ]
]

-- JsonPatchType.validate
unfoldable pub validate_patch : List (String × Bool) → Patch → Result Patch
validate_patch fields p = bind (first_attr p.path) λ attr.
    if contains internal_attrs attr
    then err client_side_error
    else if contains (non_removable_attrs fields) p.path && p.op == "remove"
    then err client_side_error
    else if not (p.op == "remove") && is_none p.value
    then err client_side_error
    else ok p

-- A validated address is an address of one of the two kinds, and every such address is valid.
validate_ip_iff :
    (a : Addresses) (value : String)
    → validate_ip a value
      ≡ (if a.is_ipv4 value || a.is_ipv6 value then ok value else err value_error)
unfolding validate_ip
validate_ip_iff a value = ground arith
