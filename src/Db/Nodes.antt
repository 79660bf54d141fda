-- ===== src/Db/Nodes.antt =====
-- Nodes, their locks and their network cards: class Connection of xcat3/db/sqlalchemy/api.py.
-- The rows of a query come in table order.
pub mod Counts
pub mod Reserve
pub mod Release
pub mod Destroy
pub mod Save
pub mod Create
use xcat.Prelude.{
  ℕ, ◌+◌, ◌≡◌, Bool, true, false, not, ◌&&◌, ◌||◌, String, ◌==◌, Option, none, some, List, [], ◌∷◌,
  map, Dict, if◌then◌else◌, is_none, is_text, truthy, eqb, contains, contains_id, length, is_empty,
  select, count_where, update_where, delete_where, find_where,
}
use xcat.Db.{
  Node, Nic, Db, Error, node_not_found, node_locked, node_not_locked, type_error, Result, ok, err,
  Action, pure, raise, ◌>>=◌, ◌>>◌, raise_if, Engine, session_for_write, named_in, is_reserved_by,
}

abbrev pub is_free : Node → Bool
is_free r = is_none r.reservation

abbrev pub has_name : String → Node → Bool
has_name n r = r.name == n

abbrev pub has_id : ℕ → Node → Bool
has_id i r = eqb r.id i

abbrev pub id_in : List ℕ → Node → Bool
id_in ids r = contains_id ids r.id

-- `.update({'reservation': tag})`, and with None
abbrev pub set_reservation : Option String → Node → Node
set_reservation tag r = record r { reservation = tag }

-- A query reads the tables as they are.
abbrev pub query : {A : Type 0} → (Db → A) → Action A
query f db = (ok (f db), db)

abbrev pub modify : (Db → Db) → Action (Unit {0})
modify f db = (ok tt, f db)

-- An update of the nodes that match, and how many they were.
abbrev pub update_nodes_where : (Node → Bool) → (Node → Node) → Action ℕ
update_nodes_where p f db =
    (ok (count_where p db.nodes), record db { nodes = update_where p f db.nodes })

abbrev pub or_raise : {A : Type 0} → Option A → Error → Action A
or_raise none e = raise e
or_raise (some a) e = pure a

-- Connection.reserve_nodes
abbrev reserve_nodes_body : String → List String → Action (List Node)
reserve_nodes_body tag names = do
  count ← update_nodes_where (λ r. named_in names r && is_free r) (set_reservation (some tag))
  nodes ← query (λ db. select (named_in names) db.nodes)
  raise_if (is_empty nodes) node_not_found
  raise_if (not (eqb count (length names))) node_locked
  pure nodes

unfoldable pub reserve_nodes : Engine → String → List String → Action (List Node)
unfolding session_for_write
reserve_nodes engine tag names = session_for_write engine (reserve_nodes_body tag names)

-- The loop of Connection.release_nodes over the nodes that are left.
unfoldable pub raise_first_locked : List Node → Action (Unit {0})
raise_first_locked [] = pure tt
raise_first_locked (r ∷ rs) =
    let rest = raise_first_locked rs in if truthy r.reservation then raise node_locked else rest

abbrev check_released : List String → Bool → Action (Unit {0})
check_released names true = pure tt
check_released names false = do
  nodes ← query (λ db. select (named_in names) db.nodes)
  raise_if (is_empty nodes) node_not_found
  raise_first_locked nodes

-- Connection.release_nodes
abbrev release_nodes_body : String → List String → Action (Unit {0})
release_nodes_body tag names = do
  count ← update_nodes_where (λ r. named_in names r && is_reserved_by tag r) (set_reservation none)
  check_released names (eqb count (length names))

unfoldable pub release_nodes : Engine → String → List String → Action (Unit {0})
unfolding session_for_write raise_first_locked
release_nodes engine tag names = session_for_write engine (release_nodes_body tag names)

-- Connection.get_node_by_id, get_node_by_name
unfoldable pub get_node_by_id : ℕ → Action Node
get_node_by_id i = do or_raise (← query (λ db. find_where (has_id i) db.nodes)) node_not_found

unfoldable pub get_node_by_name : String → Action Node
get_node_by_name n = do or_raise (← query (λ db. find_where (has_name n) db.nodes)) node_not_found

abbrev delete_nodes_where : (Node → Bool) → (Nic → Bool) → Db → Db
delete_nodes_where p q db = record db {
  nodes = delete_where p db.nodes;
  nics = delete_where q db.nics;
}

abbrev pub belongs_to : (ℕ → Bool) → Nic → Bool
belongs_to p c = elim c.node_id [ none ↦ false | some i ↦ p i ]

-- Connection.destroy_node
pub destroy_node : Engine → String → Action (Unit {0})
unfolding session_for_write get_node_by_name
destroy_node engine n = session_for_write engine do
  node ← get_node_by_name n
  modify (delete_nodes_where (has_name n) (belongs_to (λ i. eqb i node.id)))

-- Connection.destroy_nodes
unfoldable pub destroy_nodes : Engine → List ℕ → Action (Unit {0})
unfolding session_for_write
destroy_nodes engine ids = session_for_write engine do
  nodes ← query (λ db. select (id_in ids) db.nodes)
  raise_if (is_empty nodes) node_not_found
  modify (delete_nodes_where (id_in ids) (belongs_to (contains_id ids)))

-- Connection.get_node_in. `filters` and `fields` are the lists that the callers pass; where the
-- query names one column, its callers read `row[0]`, here `r.name`.
abbrev wants_names : List String → Bool
wants_names fields = eqb (length fields) 1 && contains fields "name"

unfoldable pub get_node_in : List String → List String → List String → Db → List Node
get_node_in names filters fields db =
    let query_names = wants_names fields in
    let nodes =
      if query_names && contains filters "not_reservation"
      then select (λ r. named_in names r && not (is_free r)) db.nodes
      else select (named_in names) db.nodes in
    if contains filters "reservation" then select is_free nodes else nodes

-- Connection.get_node_affinity_in
unfoldable pub get_node_affinity_in : List String → Db → List (String × Option ℕ)
get_node_affinity_in names db =
    map (λ (r : Node). (r.name, r.conductor_affinity)) (select (named_in names) db.nodes)

-- The changes of a node object that a handler has assigned, none where it has not.
pub record Changes : Type 0 where
  pub state : Option (Option String)
  pub conductor_affinity : Option (Option ℕ)
  pub osimage_id : Option (Option ℕ)

abbrev assigned : {A : Type 0} → Option A → A → A
assigned none old = old
assigned (some new) old = new

-- `node.update(updates)`
abbrev pub update : Changes → Node → Node
update c r = record r {
  state = assigned c.state r.state;
  conductor_affinity = assigned c.conductor_affinity r.conductor_affinity;
  osimage_id = assigned c.osimage_id r.osimage_id;
}

-- `updates_dict[node.id]`, applied
unfoldable pub apply_updates : List (ℕ × Changes) → Node → Node
apply_updates [] r = r
apply_updates ((i, c) ∷ us) r =
    let rest = apply_updates us r in if eqb r.id i then update c r else rest

abbrev pub update_ids : List (ℕ × Changes) → List ℕ
update_ids = map (λ u. u.0)

-- Connection.save_nodes. For ids of which none is in the table, `','.join(node_ids)` raises a
-- TypeError, since the ids are numbers.
unfoldable pub save_nodes : Engine → List (ℕ × Changes) → Action (Unit {0})
unfolding session_for_write
save_nodes engine updates = session_for_write engine do
  nodes ← query (λ db. select (id_in (update_ids updates)) db.nodes)
  raise_if (is_empty nodes) (if is_empty updates then node_not_found else type_error)
  modify λ db. record db {
    nodes = update_where (id_in (update_ids updates)) (apply_updates updates) db.nodes;
  }
