-- ===== src/Api/Nics.antt =====
-- Network cards over REST: NicController of xcat3/api/controllers/v1/nic.py with the lookups of
-- xcat3/objects/nic.py. The columns `name`, `extra`, `created_at` and `updated_at`, links and
-- the selection of fields are left out.

pub mod Posted
use xcat.Prelude.{
  ℕ, Bool, true, false, not, ◌&&◌, ◌||◌, String, ◌==◌, Option, none, some, List, [], ◌∷◌, ◌++◌,
  Dict, map, if◌then◌else◌, eqb, is_none,
}
use xcat.Db.{
  Node, Nic, Db, Error, node_not_found, invalid_nic_attr, json_patch_error, key_error, value_error,
  client_side_error, Result, ok, err, Action, pure, raise, ◌>>=◌, ◌>>◌, Engine,
}
use xcat.Db.Nodes.{get_node_by_id, get_node_by_name}
use xcat.Db.Nics.{
  NicIdentity, identity, get_nic_by_uuid, get_nic_by_mac, get_nics_by_node_id, create_nic,
  update_nic, destroy_nic,
}
use xcat.Db.Tables.{number}
use xcat.Conductor.{bind, success}
use xcat.Fields.{Packages, coerce_ip}
use xcat.Fields as Fields
use xcat.Api.Values.{validate_mac}
use xcat.Api.Patch.{Doc, leaf, lstrip}
use xcat.Api.Patch as Patches

-- The API's Nic as it is shown: the columns without `node_id`, and the name of the node
pub record NicView : Type 0 where
  pub uuid : Option String
  pub mac : Option String
  pub ip : Option String
  pub primary : Bool
  pub node : String

-- Nic.convert_with_links; a card of no node has no name to show.
unfoldable pub convert_with_links : Nic → Action NicView
convert_with_links c = elim c.node_id [
  | none ↦ raise node_not_found
  | some i ↦ do
    node ← get_node_by_id i
    pure (record { uuid = c.uuid; mac = c.mac; ip = c.ip; primary = c.primary; node = node.name })
]

-- NicCollection.convert_with_links
unfoldable pub convert_all : List Nic → Action (List NicView)
unfolding convert_with_links
convert_all [] = pure []
convert_all (c ∷ cards) = do
  view ← convert_with_links c
  views ← convert_all cards
  pure (view ∷ views)

-- IPAddressField on what a card is given, and the text of the address, which is what a column holds
unfoldable pub coerce_address : Packages → Option String → Result (Option String)
unfolding coerce_ip
coerce_address p none = ok none
coerce_address p (some ip) = bind (coerce_ip p (Fields.text ip)) λ a. ok (some a.text)

-- What the fields of objects.Nic make of a MAC address, which cannot be None, and of an address
unfoldable pub coerce_nic : Packages → Nic → Result Nic
unfolding coerce_address validate_mac
coerce_nic p c = elim c.mac [
  | none ↦ err value_error
  | some given ↦
      bind (validate_mac p.is_valid_mac given)
        λ mac. bind (coerce_address p c.ip) λ ip. ok (record c { mac = some mac; ip = ip })
]

-- _from_db_object
abbrev pub from_db_object : Packages → Nic → Action Nic
from_db_object p c db = (coerce_nic p c, db)

unfoldable pub from_db_objects : Packages → List Nic → Action (List Nic)
unfolding coerce_nic
from_db_objects p [] = pure []
from_db_objects p (c ∷ cards) = do
  nic ← from_db_object p c
  nics ← from_db_objects p cards
  pure (nic ∷ nics)

-- NicController.node
unfoldable pub get_of_node : Packages → String → Action (List NicView)
unfolding convert_all from_db_objects
get_of_node p node_name = do
  node ← get_node_by_name node_name
  nics ← λ db. from_db_objects p (get_nics_by_node_id node.id db) db
  convert_all nics

-- NicController.address
unfoldable pub get_of_mac : Packages → String → Action NicView
unfolding convert_with_links coerce_nic
get_of_mac p mac = do c ← get_nic_by_mac mac; nic ← from_db_object p c; convert_with_links nic

-- NicController.get_one
unfoldable pub get_one : Packages → String → Action NicView
unfolding convert_with_links coerce_nic
get_one p uuid = do c ← get_nic_by_uuid uuid; nic ← from_db_object p c; convert_with_links nic

-- NicController.get_all
unfoldable pub get_all : Db → List (Option String × Option String)
get_all db = map (λ (c : Nic). (c.uuid, c.mac)) db.nics

-- What is sent to post: a card by the id of its node or by its name
pub record NewNic : Type 0 where
  pub uuid : String
  pub mac : String
  pub ip : Option String
  pub primary : Bool
  pub node_id : Option ℕ
  pub node : Option String

-- The node of a new card
unfoldable pub node_id_of : NewNic → Action ℕ
node_id_of nic = elim nic.node_id [
  | some i ↦ pure i
  | none ↦ elim nic.node [
    | none ↦ raise invalid_nic_attr
    | some name ↦ do node ← get_node_by_name name; pure node.id
  ]
]

-- `objects.Nic(context, **nic.as_dict())`, whose fields coerce the MAC address and the address
unfoldable pub new_row : Packages → ℕ → NewNic → ℕ → Result Nic
unfolding coerce_nic
new_row p fresh_id nic i = coerce_nic p (record {
  id = fresh_id;
  uuid = some nic.uuid;
  mac = some nic.mac;
  ip = nic.ip;
  node_id = some i;
  primary = nic.primary;
})

-- `result[new_nic.mac]`
abbrev pub created_reply : Nic → Dict String
created_reply c = elim c.mac [ none ↦ [] | some mac ↦ (mac, success) ∷ [] ]

module _ (engine : Engine) (p : Packages) where
  -- NicController.post, where a new row would get the id `fresh_id`
  unfoldable pub post : ℕ → NewNic → Action (Dict String)
  unfolding node_id_of new_row coerce_nic
  post fresh_id nic = do
    i ← node_id_of nic
    c ← λ db. (new_row p fresh_id nic i, db)
    row ← create_nic engine c
    new_nic ← from_db_object p row
    pure (created_reply new_nic)

-- NicController.delete
unfoldable pub delete : Engine → Packages → String → Action (Unit {0})
unfolding coerce_nic
delete engine p uuid = do
  c ← get_nic_by_uuid uuid
  nic ← from_db_object p c
  destroy_nic engine (identity (number nic.id))

-- A value of a patch, and an operation of it
pub data NicValue : Type 0 where
  text : String → NicValue
  number_of : ℕ → NicValue
  truth : Bool → NicValue

pub record NicPatch : Type 0 where
  pub op : String
  pub path : String
  pub value : Option NicValue

-- _update_node_attr: an operation on `node` becomes one on `node_id`.
unfoldable pub update_node_attr : List NicPatch → Action (List NicPatch)
update_node_attr [] = pure []
update_node_attr (p ∷ ps) = do
  q ←
      if lstrip p.path == "node"
      then (elim p.value [
        | some (text name) ↦ do
          node ← get_node_by_name name
          pure (record p { path = "/node_id"; value = some (number_of node.id) })
        | some v ↦ raise node_not_found
        | none ↦ raise key_error
      ])
      else pure p
  qs ← update_node_attr ps
  pure (q ∷ qs)

-- The loop of apply_jsonpatch, as for nodes
unfoldable pub prune : Doc → List NicPatch → Result (List NicPatch)
prune doc [] = ok []
prune doc (p ∷ ps) =
    let rest = prune doc ps in
    bind (Patches.stays doc (record { op = p.op; path = p.path; value = none }))
      λ kept. bind rest λ more. ok (if kept then p ∷ more else more)

abbrev is_patch_exception : Error → Bool
is_patch_exception json_patch_error = true
is_patch_exception key_error = true
is_patch_exception _ = false

-- The handler of JSONPATCH_EXCEPTIONS, which raises a PatchError
abbrev pub or_patch_error : {A : Type 0} → Action A → Action A
or_patch_error m db =
    let (r, db') = m db in
    elim r [
      | ok a ↦ (ok a, db')
      | err e ↦ (err (if is_patch_exception e then json_patch_error else e), db')
    ]

abbrev same_text : Option String → Option String → Bool
same_text none none = true
same_text none (some t) = false
same_text (some s) none = false
same_text (some s) (some t) = s == t

abbrev same_id : Option ℕ → Option ℕ → Bool
same_id none none = true
same_id none (some j) = false
same_id (some i) none = false
same_id (some i) (some j) = eqb i j

abbrev same_truth : Bool → Bool → Bool
same_truth true b = b
same_truth false b = not b

-- _update_changed_fields: a uuid or a MAC address cannot be None, the fields coerce what they are given,
-- and the API has no `id`.
unfoldable pub update_changed_fields : Packages → Nic → Nic → Result Nic
unfolding coerce_nic
update_changed_fields p nic nic_obj =
    if is_none nic.uuid then err value_error else coerce_nic p (record nic { id = nic_obj.id })

-- The columns of Nic.save that have changed, written to a row
abbrev pub write_nic : Nic → Nic → Nic → Nic
write_nic old nic row = record row {
  mac = if same_text old.mac nic.mac then row.mac else nic.mac;
  ip = if same_text old.ip nic.ip then row.ip else nic.ip;
  node_id = if same_id old.node_id nic.node_id then row.node_id else nic.node_id;
  primary = if same_truth old.primary nic.primary then row.primary else nic.primary;
}

-- NicController.patch. `doc_of` is what apply_jsonpatch looks at of a card, and `apply` what jsonpatch and
-- the API's Nic make of it.
unfoldable pub patch :
    Engine
    → Packages
    → (Nic → Doc)
    → (Nic → List NicPatch → Result Nic)
    → String
    → List NicPatch
    → Action NicView
unfolding update_node_attr prune update_changed_fields convert_with_links coerce_nic
patch engine p doc_of apply uuid ps = do
  row ← get_nic_by_uuid uuid
  nic_obj ← from_db_object p row
  nic ← or_patch_error do
    qs ← update_node_attr ps
    λ db. (bind (prune (doc_of nic_obj) qs) λ left. apply nic_obj left, db)
  changed ← λ db. (update_changed_fields p nic nic_obj, db)
  update_nic engine (identity (number nic_obj.id)) (not (same_text nic_obj.uuid changed.uuid))
      (write_nic nic_obj changed)
  convert_with_links changed
