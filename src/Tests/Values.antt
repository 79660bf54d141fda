-- ===== src/Tests/Values.antt =====
-- Texts that the types of a request take or refuse.
use xcat.Prelude.{◌≡◌, refl, true, false, none, some, [], ◌∷◌}
use xcat.Db.{client_side_error, ok, err}
use xcat.Api.Patch.{Patch, split_from}
use xcat.Api.Values.{
  is_valid_logical_name, matches_name, rest_is_name, is_name_char, validate_patch, first_attr,
  non_removable_attrs,
}

-- A text with a line feed at its end is taken for a logical name, one with a space is not.
ends_with_line_feed : (is_valid_logical_name "a\n" ≡ true) × (is_valid_logical_name "a b" ≡ false)
unfolding is_valid_logical_name matches_name rest_is_name is_name_char
ends_with_line_feed = (refl, refl)

abbrev set_uuid : Patch
set_uuid = record { op = "replace"; path = "/uuid/x"; value = some "1" }

internal-refused : validate_patch [] set_uuid ≡ err client_side_error
unfolding validate_patch first_attr non_removable_attrs split_from
internal-refused = refl

abbrev remove_arch : Patch
remove_arch = record { op = "remove"; path = "/arch"; value = none }

removal-taken : validate_patch (("mgt", true) ∷ []) remove_arch ≡ ok remove_arch
unfolding validate_patch first_attr non_removable_attrs split_from
removal-taken = refl
