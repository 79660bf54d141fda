-- ===== src/Db/Nics.antt =====
-- Network cards: class Connection of xcat3/db/sqlalchemy/api.py, and the cards of node objects in
-- xcat3/objects/nic.py.
pub mod Cards
use xcat.Prelude.{
  ℕ, ◌≡◌, Bool, true, false, not, ◌&&◌, ◌||◌, String, ◌==◌, Option, none, some, List, [], ◌∷◌, ◌++◌,
  map, Dict, if◌then◌else◌, is_none, is_text, eqb, contains_id, select, count_where, delete_where,
  update_where, find_where,
}
use xcat.Db.{
  Node, Nic, Db, Error, nic_not_found, mac_already_exists, nic_already_exists, invalid_parameter,
  invalid_identity, invalid_request, key_error, db_duplicate_entry, Result, ok, err, Action, pure,
  raise, ◌>>=◌, ◌>>◌, raise_if, Engine, session_for_write,
}
use xcat.Db.Tables.{Identity, number, other}

abbrev or_nic_not_found : Option Nic → Action Nic
or_nic_not_found none db = (err nic_not_found, db)
or_nic_not_found (some c) db = (ok c, db)

abbrev pub has_nic_id : ℕ → Nic → Bool
has_nic_id i c = eqb c.id i

abbrev pub has_mac : String → Nic → Bool
has_mac mac c = is_text c.mac mac

abbrev pub has_uuid : String → Nic → Bool
has_uuid uuid c = is_text c.uuid uuid

-- Connection.get_nic_by_id, get_nic_by_uuid, get_nic_by_mac
pub get_nic_by_id : ℕ → Action Nic
get_nic_by_id i db = or_nic_not_found (find_where (has_nic_id i) db.nics) db

unfoldable pub get_nic_by_uuid : String → Action Nic
get_nic_by_uuid uuid db = or_nic_not_found (find_where (has_uuid uuid) db.nics) db

unfoldable pub get_nic_by_mac : String → Action Nic
get_nic_by_mac mac db = or_nic_not_found (find_where (has_mac mac) db.nics) db

-- Connection.get_nics_by_node_id, get_nics_in_node_ids
abbrev pub on_node : (ℕ → Bool) → Nic → Bool
on_node p c = elim c.node_id [ none ↦ false | some i ↦ p i ]

pub get_nics_by_node_id : ℕ → Db → List Nic
get_nics_by_node_id i db = select (on_node (λ j. eqb j i)) db.nics

pub get_nics_in_node_ids : List ℕ → Db → List Nic
get_nics_in_node_ids ids db = select (on_node (contains_id ids)) db.nics

-- The unique constraints of the columns mac and uuid, where NULL clashes with nothing.
abbrev pub mac_taken : Option String → List Nic → Bool
mac_taken none cards = false
mac_taken (some mac) cards = not (is_none (find_where (has_mac mac) cards))

abbrev pub uuid_taken : Option String → List Nic → Bool
uuid_taken none cards = false
uuid_taken (some uuid) cards = not (is_none (find_where (has_uuid uuid) cards))

-- Connection.create_nic, for the row that the values give with their uuid. A row that clashes in
-- both columns is reported for its mac.
unfoldable pub create_nic : Engine → Nic → Action Nic
unfolding session_for_write
create_nic engine c = session_for_write engine λ db.
    if mac_taken c.mac db.nics
    then raise mac_already_exists db
    else if uuid_taken c.uuid db.nics
    then raise nic_already_exists db
    else (ok c, record db { nics = db.nics ++ c ∷ [] })

-- What add_nic_filter makes of a value: for a MAC address it filters by a column `address`, which
-- the table does not have.
pub data NicIdentity : Type 0 where
  mac_address : NicIdentity
  identity : Identity → NicIdentity

pub nic_filter : NicIdentity → Result (Nic → Bool)
nic_filter mac_address = err invalid_request
nic_filter (identity other) = err invalid_identity
nic_filter (identity (number i)) = ok (has_nic_id i)

-- The transaction of Connection.update_nic, for values that give the row `values ref`.
pub do_update_nic : (Nic → Bool) → (Nic → Nic) → Action Nic
do_update_nic p values db = elim (find_where p db.nics) [
  | none ↦ (err nic_not_found, db)
  | some ref ↦
      if mac_taken (values ref).mac (select (λ c. not (p c)) db.nics)
      then (err mac_already_exists, db)
      else (ok (values ref), record db { nics = update_where p values db.nics })
]

-- Connection.update_nic; `sets_uuid` is whether the values have a uuid.
pub update_nic : Engine → NicIdentity → Bool → (Nic → Nic) → Action Nic
unfolding session_for_write nic_filter do_update_nic
update_nic engine i true values db = (err invalid_parameter, db)
update_nic engine i false values db =
    session_for_write engine
      (λ now. elim (nic_filter i) [ err e ↦ (err e, now) | ok p ↦ do_update_nic p values now ]) db

-- Connection.destroy_nic
pub destroy_nic : Engine → NicIdentity → Action (Unit {0})
unfolding session_for_write nic_filter
destroy_nic engine i = session_for_write engine λ db. elim (nic_filter i) [
  | err e ↦ (err e, db)
  | ok p ↦
      if eqb (count_where p db.nics) 0
      then (err nic_not_found, db)
      else (ok tt, record db { nics = delete_where p db.nics })
]

-- `node_dict` of Nic.to_node_objs_with_nics_info: a list for each node, then each card appended to
-- the list of its node.
pub gather : List Nic → List (ℕ × List Nic) → List (ℕ × List Nic)
gather [] dict = dict
gather (c ∷ cards) dict = gather cards (
    map (λ (p : ℕ × List Nic). (p.0, if on_node (λ i. eqb i p.0) c then p.1 ++ c ∷ [] else p.1))
      dict)

-- Nic.to_node_objs_with_nics_info: each node with its cards.
abbrev pub cards_of : List (ℕ × List Nic) → ℕ → List Nic
cards_of [] i = []
cards_of ((j, cards) ∷ dict) i = let rest = cards_of dict i in if eqb j i then cards else rest

pub with_nics : List Node → Db → List (Node × List Nic)
unfolding get_nics_in_node_ids gather
with_nics nodes db =
    let ids = map (λ (r : Node). r.id) nodes in
    let dict = gather (get_nics_in_node_ids ids db) (map (λ (i : ℕ). (i, [])) ids) in
    map (λ (r : Node). (r, cards_of dict r.id)) nodes
