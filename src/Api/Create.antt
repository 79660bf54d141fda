-- ===== src/Api/Create.antt =====
-- NodesController.post of xcat3/api/controllers/v1/node.py: nodes created one by one, or, from
-- fifteen on, in bulk.
pub mod Told
use xcat.Prelude.{
  ℕ, ◌+◌, ◌≡◌, Bool, true, false, not, ◌&&◌, ◌||◌, String, ◌==◌, Option, none, some, List, [], ◌∷◌,
  ◌++◌, map, Dict, insert, write_all, if◌then◌else◌, ltb, contains, length, select, is_empty,
}
use xcat.Db.{Node, Db, Error, invalid_name, Result, ok, err, Action, Engine}
use xcat.Db.Nodes.Create.{NewNode, create_node, create_nodes, rows_of}
use xcat.Conductor.{success}
use xcat.Api.{names_in}

-- What the handler knows: the database, the message of an exception, and what creating and
-- validating the object of oslo.versionedobjects raises for a node, if anything.
pub record Creator : Type 0 where
  pub engine : Engine
  pub text : Error → String
  pub invalid : NewNode → Option Error

-- _REST_RESOURCE
abbrev pub rest_resource : List String
rest_resource = "power" ∷ "provision" ∷ "boot_device" ∷ []

-- What _create_object raises
unfoldable pub refused : Creator → NewNode → Option Error
refused creator node =
    if contains rest_resource node.row.name then some invalid_name else creator.invalid node

-- _create_object: `result['nodes']` after it, and whether there is an object.
unfoldable pub create_object : Creator → NewNode → Dict String → Dict String × Bool
create_object creator node result = elim (refused creator node) [
  | some e ↦ (insert node.row.name (creator.text e) result, false)
  | none ↦ (insert node.row.name success result, true)
]

-- The turn of the loop of singal_create for a node
unfoldable pub create_one : Creator → NewNode → Dict String → Db → Dict String × Db
create_one creator node result db =
    let (told, made) = create_object creator node result in
    if made
    then (let (r, db') = create_node creator.engine node db in
        elim r [
          | err e ↦ (insert node.row.name (creator.text e) told, db')
          | ok row ↦ (insert node.row.name success told, db')
        ])
    else (told, db)

-- singal_create
unfoldable pub single_create : Creator → List NewNode → Dict String → Db → Dict String × Db
single_create creator [] result db = (result, db)
single_create creator (node ∷ nodes) result db =
    let (told, db') = create_one creator node result db in single_create creator nodes told db'

abbrev count_in : List String → String → ℕ
count_in [] n = 0
count_in (m ∷ ms) n = (if m == n then 1 else 0) + count_in ms n

-- utils.get_duplicate_list, with an element as often as it occurs
unfoldable pub get_duplicate_list : List String → List String
get_duplicate_list names = select (λ n. ltb 1 (count_in names n)) names

abbrev pub duplicate_text : String
duplicate_text = "Error: duplicate name"

abbrev pub new_names : List NewNode → List String
new_names = map (λ (node : NewNode). node.row.name)

-- The objects of a list of nodes and what is told of them
unfoldable pub create_objects : Creator → List NewNode → Dict String → Dict String × List NewNode
create_objects creator [] result = (result, [])
create_objects creator (node ∷ nodes) result =
    let (told, made) = create_object creator node result in
    let (told', rest) = create_objects creator nodes told in
    (told', if made then node ∷ rest else rest)

abbrev pub unique_of : List String → List NewNode → List NewNode
unique_of dups = select (λ node. not (contains dups node.row.name))

-- The end of bulk_create; an exception of create_nodes goes through.
unfoldable pub create_made : Creator → Dict String → List NewNode → Action (Dict String)
create_made creator told new_nodes db =
    if is_empty new_nodes
    then (ok told, db)
    else (let (r, db') = create_nodes creator.engine new_nodes db in
        elim r [ err e ↦ (err e, db') | ok _ ↦ (ok told, db') ])

-- bulk_create up to the objects: the names that are given twice or exist already are told so.
unfoldable pub prepare : Creator → List NewNode → Db → Dict String × List NewNode
prepare creator nodes db =
    let names = new_names nodes in
    let dups = get_duplicate_list (names ++ names_in names [] db) in
    create_objects creator (unique_of dups nodes)
      (write_all (map (λ n. (n, duplicate_text)) dups) [])

-- bulk_create
unfoldable pub bulk_create : Creator → List NewNode → Action (Dict String)
bulk_create creator nodes db =
    let (told, new_nodes) = prepare creator nodes db in create_made creator told new_nodes db

-- NodesController.post
unfoldable pub post : Creator → List NewNode → Action (Dict String)
post creator nodes db =
    if ltb (length nodes) 15
    then (let (result, db') = single_create creator nodes [] db in (ok result, db'))
    else bulk_create creator nodes db
