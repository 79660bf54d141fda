-- ===== src/Db/Nodes/Save.antt =====
-- Connection.save_nodes of xcat3/db/sqlalchemy/api.py: the rows that it writes and the others.
use xcat.Prelude.{
  inl, inr, ◌⊎◌, Bool-cases, ap, ℕ, ◌≡◌, refl, false, List, [], ◌∷◌, arith, contains_id,
  update_where, find_where, eqb,
}
use xcat.Db.{Node, Db, Error, Result, ok, err, Engine, RollsBack}
use xcat.Db.Nodes.{has_id, id_in, Changes, update_ids, apply_updates, save_nodes}

-- An update writes only the state, the conductor and the image of a row.
pub apply_updates-keeps :
    (us : List (ℕ × Changes)) (r : Node)
    → ((apply_updates us r).id ≡ r.id)
      × ((apply_updates us r).name ≡ r.name)
      × ((apply_updates us r).reservation ≡ r.reservation)
unfolding apply_updates
apply_updates-keeps [] r = (refl, refl, refl)
apply_updates-keeps ((i, c) ∷ us) r = ground (arith, apply_updates-keeps us r)

abbrev pub saved : List (ℕ × Changes) → Db → Db
saved us db = record db { nodes = update_where (id_in (update_ids us)) (apply_updates us) db.nodes }

-- A call that returns has written the rows of its ids; one that raises has written nothing.
pub save_nodes-saves :
    (engine : Engine) (us : List (ℕ × Changes)) (db : Db)
    → (save_nodes engine us db).0 ≡ ok tt
    → (save_nodes engine us db).1 ≡ saved us db
unfolding save_nodes
save_nodes-saves engine us db h = ground arith

-- If save_nodes raises, all tables are as before, if the database rolls back.
pub save_nodes-atomic :
    (engine : Engine) (us : List (ℕ × Changes)) (db : Db) (e : Error)
    → RollsBack engine
    → (save_nodes engine us db).0 ≡ err e
    → (save_nodes engine us db).1 ≡ db
unfolding save_nodes
save_nodes-atomic engine us db e rb h = ground (arith, rb db db, rb db (saved us db))

-- A row whose id is not among those of the call stays as it is.
find-update_other :
    (us : List (ℕ × Changes)) (i : ℕ) (rows : List Node)
    → contains_id (update_ids us) i ≡ false
    → find_where (has_id i) (update_where (id_in (update_ids us)) (apply_updates us) rows)
      ≡ find_where (has_id i) rows
find-update_other us i [] h = refl
find-update_other us i (r ∷ rows) h = elim (Bool-cases (eqb r.id i)) [
  | inl same ↦
      let e : r.id ≡ i = ground arith in
      ground (
        arith,
        ap (contains_id (update_ids us)) e,
        apply_updates-keeps us r,
        find-update_other us i rows,
      )
  | inr other ↦ ground (arith, apply_updates-keeps us r, find-update_other us i rows)
]

pub Result-cases : (r : Result (Unit {0})) → (r ≡ ok tt) ⊎ ((e : Error) × (r ≡ err e))
Result-cases (ok tt) = inl refl
Result-cases (err e) = inr (e, refl)

pub find-save_nodes_other :
    (engine : Engine) (us : List (ℕ × Changes)) (db : Db) (i : ℕ)
    → RollsBack engine
    → contains_id (update_ids us) i ≡ false
    → find_where (has_id i) (save_nodes engine us db).1.nodes ≡ find_where (has_id i) db.nodes
find-save_nodes_other engine us db i rb h = elim (Result-cases (save_nodes engine us db).0) [
  | inl saves ↦ rw (save_nodes-saves engine us db saves) (find-update_other us i db.nodes h)
  | inr (e, raises) ↦ rw (save_nodes-atomic engine us db e rb raises)
]
