-- ===== src/Tests/Cards.antt =====
-- Network cards that are posted, shown, patched and deleted.
use xcat.Prelude.{◌≡◌, refl, false, none, some, [], ◌∷◌}
use xcat.Db.{node_not_found, invalid_nic_attr, err}
use xcat.Db.Nodes.{get_node_by_name}
use xcat.Api.Nics.{NewNic, NicPatch, node_id_of, post, update_node_attr}
use xcat.Api.Patch.{lstrip}
use xcat.Api.Nics as Nics
use xcat.Tests.Storing.{packages}
use xcat.Tests.{rolling_back, tables}

abbrev new_card : NewNic
new_card = record {
  uuid = "v";
  mac = "AA";
  ip = some "10.0.0.1";
  primary = false;
  node_id = none;
  node = some "b";
}

nobodys-refused :
    (post rolling_back packages 5 (record new_card { node = none }) tables).0 ≡ err invalid_nic_attr
unfolding post node_id_of
nobodys-refused = refl

abbrev moved : NicPatch
moved = record { op = "replace"; path = "/node"; value = some (Nics.text "z") }

moved-refused : (update_node_attr (moved ∷ []) tables).0 ≡ err node_not_found
unfolding update_node_attr get_node_by_name lstrip
moved-refused = refl
