-- ===== src/Db/Nodes/Destroy.antt =====
-- Connection.destroy_nodes of xcat3/db/sqlalchemy/api.py: the tables after it.
use xcat.Prelude.{
  inl, inr, Bool-cases, ap, ℕ, ◌≡◌, none, List, [], ◌∷◌, arith, if◌then◌else◌, contains_id,
  delete_where, find_where, eqb,
}
use xcat.Db.{Node, Db, ok, Engine}
use xcat.Db.Nodes.{has_id, id_in, belongs_to, destroy_nodes}

find_where-delete :
    (ids : List ℕ) (i : ℕ) (rows : List Node)
    → find_where (has_id i) (delete_where (id_in ids) rows)
      ≡ (if contains_id ids i then none else find_where (has_id i) rows)
find_where-delete ids i [] = ground arith
find_where-delete ids i (r ∷ rows) = elim (Bool-cases (eqb r.id i)) [
  | inl same ↦
      let e : r.id ≡ i = ground arith in
      ground (arith, ap (contains_id ids) e, find_where-delete ids i rows)
  | inr other ↦ ground (arith, find_where-delete ids i rows)
]

module _ (engine : Engine) (ids : List ℕ) (db : Db) where
  -- A call that returns has deleted the rows of the ids and the network cards of those nodes, and
  -- nothing else.
  destroy_nodes-deletes :
      (destroy_nodes engine ids db).0 ≡ ok tt
      → (destroy_nodes engine ids db).1 ≡ record db {
        nodes = delete_where (id_in ids) db.nodes;
        nics = delete_where (belongs_to (contains_id ids)) db.nics;
      }
  unfolding destroy_nodes
  destroy_nodes-deletes h = ground arith

  -- If destroy_nodes of the database returns, no node is found under any of its ids, and every
  -- other id is found as before.
  pub find-destroy_nodes :
      (i : ℕ)
      → (destroy_nodes engine ids db).0 ≡ ok tt
      → find_where (has_id i) (destroy_nodes engine ids db).1.nodes
        ≡ (if contains_id ids i then none else find_where (has_id i) db.nodes)
  find-destroy_nodes i h = rw (destroy_nodes-deletes h) (find_where-delete ids i db.nodes)

  pub dhcp-destroy_nodes :
      (destroy_nodes engine ids db).0 ≡ ok tt → (destroy_nodes engine ids db).1.dhcp ≡ db.dhcp
  dhcp-destroy_nodes h = rw (destroy_nodes-deletes h)
