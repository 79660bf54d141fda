-- ===== src/Db/Nodes/Create.antt =====
-- New nodes with their network cards: create_node and create_nodes of xcat3/db/sqlalchemy/api.py,
-- with reserve_node, release_node and update_nodes for single nodes.
pub mod Unique
use xcat.Prelude.{
  ℕ, ◌≡◌, Bool, true, false, not, ◌&&◌, ◌||◌, String, ◌==◌, Option, none, some, List, [], ◌∷◌, ◌++◌,
  map, Dict, insert, lookup, if◌then◌else◌, is_none, eqb, count_where, update_where, find_where,
}
use xcat.Db.{
  Node, Nic, Db, Error, node_not_found, attribute_error, key_error, db_duplicate_entry, Result, ok,
  err, Action, pure, raise, ◌>>=◌, ◌>>◌, raise_if, Engine, session_for_write, is_reserved_by,
}
use xcat.Db.Nics.{mac_taken, uuid_taken}
use xcat.Db.Nodes.{
  is_free, has_name, has_id, set_reservation, query, modify, update_nodes_where, or_raise, Changes,
  update_ids, apply_updates, id_in,
}

-- The values of a new node, with the id that the database gives it and the cards of its
-- `nics_info`, if it has them.
pub record NewNode : Type 0 where
  pub row : Node
  pub nics : Option (List Nic)

abbrev pub is_name_taken : Node → List Node → Bool
is_name_taken r rows = not (is_none (find_where (has_name r.name) rows))

-- Rows inserted one after the other, none where the unique constraint of the name refuses one.
pub insert_nodes : List Node → List Node → Option (List Node)
insert_nodes [] rows = some rows
insert_nodes (r ∷ new) rows =
    let rest = insert_nodes new (rows ++ r ∷ []) in if is_name_taken r rows then none else rest

-- The same for cards, with the unique constraints of mac and uuid.
unfoldable pub insert_nics : List Nic → List Nic → Option (List Nic)
insert_nics [] cards = some cards
insert_nics (c ∷ new) cards =
    let rest = insert_nics new (cards ++ c ∷ []) in
    if mac_taken c.mac cards || uuid_taken c.uuid cards then none else rest

abbrev pub cards_of : NewNode → List Nic
cards_of new = elim new.nics [ none ↦ [] | some cards ↦ cards ]

abbrev pub on : ℕ → List Nic → List Nic
on i = map (λ (c : Nic). record c { node_id = some i })

-- Connection.create_node. The row is written when the transaction ends, after the `try`, so that a
-- DBDuplicateEntry is not told as a DuplicateName.
unfoldable pub create_node : Engine → NewNode → Action Node
unfolding insert_nics
create_node engine new = session_for_write engine λ db.
    if is_name_taken new.row db.nodes
    then (err db_duplicate_entry, db)
    else elim (insert_nics (on new.row.id (cards_of new)) db.nics) [
      | none ↦ (err db_duplicate_entry, db)
      | some nics ↦ (ok new.row, record db { nodes = db.nodes ++ new.row ∷ []; nics = nics })
    ]

-- `node_dict` of create_nodes: the cards of each node that has `nics`, under its name
pub node_dict : List NewNode → Dict (List Nic) → Dict (List Nic)
node_dict [] dict = dict
node_dict (new ∷ values) dict =
    node_dict values (elim new.nics [ none ↦ dict | some cards ↦ insert new.row.name cards dict ])

-- The cards with the ids of their nodes, which are read from the table.
pub nic_values : Dict (List Nic) → List Node → Result (List Nic)
nic_values [] rows = ok []
nic_values ((name, cards) ∷ dict) rows =
    let rest = nic_values dict rows in
    elim (find_where (has_name name) rows) [
      | none ↦ err key_error
      | some r ↦ elim rest [ err e ↦ err e | ok more ↦ ok (on r.id cards ++ more) ]
    ]

abbrev pub rows_of : List NewNode → List Node
rows_of = map (λ (new : NewNode). new.row)

-- The two transactions of Connection.create_nodes
unfoldable pub bulk_insert_nodes : Engine → List NewNode → Action (Unit {0})
bulk_insert_nodes engine values = session_for_write engine λ db.
    elim (insert_nodes (rows_of values) db.nodes) [
      | none ↦ (err db_duplicate_entry, db)
      | some rows ↦ (ok tt, record db { nodes = rows })
    ]

unfoldable pub bulk_insert_nics : Engine → List Nic → Action (Unit {0})
unfolding insert_nics
bulk_insert_nics engine cards = session_for_write engine λ db. elim (insert_nics cards db.nics) [
  | none ↦ (err db_duplicate_entry, db)
  | some nics ↦ (ok tt, record db { nics = nics })
]

-- Connection.create_nodes
unfoldable pub create_nodes : Engine → List NewNode → Action (Unit {0})
unfolding node_dict nic_values
create_nodes engine values = do
  bulk_insert_nodes engine values
  cards ← λ db. (nic_values (node_dict values []) db.nodes, db)
  bulk_insert_nics engine cards

-- Connection.reserve_node; the message of NodeLocked reads a column uuid that nodes do not have.
pub reserve_node : Engine → String → ℕ → Action Node
unfolding session_for_write
reserve_node engine tag i = session_for_write engine do
  count ← update_nodes_where (λ r. has_id i r && is_free r) (set_reservation (some tag))
  node ← or_raise (← query (λ db. find_where (has_id i) db.nodes)) node_not_found
  raise_if (not (eqb count 1)) attribute_error
  pure node

abbrev check_one : ℕ → Bool → Action (Unit {0})
check_one i true = pure tt
check_one i false = do
  node ← or_raise (← query (λ db. find_where (has_id i) db.nodes)) node_not_found
  raise attribute_error

-- Connection.release_node; both messages read the column uuid.
pub release_node : Engine → String → ℕ → Action (Unit {0})
unfolding session_for_write
release_node engine tag i = session_for_write engine do
  count ← update_nodes_where (λ r. has_id i r && is_reserved_by tag r) (set_reservation none)
  check_one i (eqb count 1)

-- Connection.update_nodes, for ids that are in the table
pub update_nodes : Engine → List (ℕ × Changes) → Action (Unit {0})
unfolding session_for_write
update_nodes engine updates = session_for_write engine (
    modify λ db. record db {
      nodes = update_where (id_in (update_ids updates)) (apply_updates updates) db.nodes;
    })
