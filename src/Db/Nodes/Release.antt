-- ===== src/Db/Nodes/Release.antt =====
-- Connection.release_nodes of xcat3/db/sqlalchemy/api.py, on each of its outcomes and after a
-- reservation.
use xcat.Prelude.{
  ◌≡◌, refl, Bool, ◌&&◌, String, eq_refl, none, some, List, [], ◌∷◌, arith, length, select,
  count_where, update_where,
}
use xcat.Db.{
  Node, Db, Error, ok, err, Engine, RollsBack, named_in, is_reserved_by, session_for_write,
  session_for_write-atomic,
}
use xcat.Db.Nodes.{
  release_nodes_body, set_reservation, raise_first_locked, reserve_nodes, release_nodes,
}
use xcat.Db.Nodes.Counts.{UniqueNames, free_in, count-free_in-le, taken_in, count-taken_in}
use xcat.Db.Nodes.Reserve.{reserved, reserve_nodes-full}

abbrev pub held_in : String → List String → Node → Bool
held_in tag names r = named_in names r && is_reserved_by tag r

abbrev pub freed : String → List String → Db → Db
freed tag names db = record db {
  nodes = update_where (held_in tag names) (set_reservation none) db.nodes;
}

-- The loop raises or does nothing.
raise_first_locked-keeps : (rows : List Node) (db : Db) → (raise_first_locked rows db).1 ≡ db
unfolding raise_first_locked
raise_first_locked-keeps [] db = refl
raise_first_locked-keeps (r ∷ rows) db = ground (arith, raise_first_locked-keeps rows db)

-- If release_nodes raises, all tables are as before, if the database rolls back.
pub release_nodes-atomic :
    (engine : Engine) (tag : String) (names : List String) (db : Db) (e : Error)
    → RollsBack engine
    → (release_nodes engine tag names db).0 ≡ err e
    → (release_nodes engine tag names db).1 ≡ db
unfolding release_nodes
release_nodes-atomic engine tag names db e rb h =
    session_for_write-atomic engine (release_nodes_body tag names) db e rb h

-- If release_nodes returns, it has freed exactly the rows of the requested names that the tag
-- holds, and changed nothing else.
pub release_nodes-frees :
    (engine : Engine) (tag : String) (names : List String) (db : Db)
    → (release_nodes engine tag names db).0 ≡ ok tt
    → (release_nodes engine tag names db).1 ≡ freed tag names db
unfolding release_nodes session_for_write
release_nodes-frees engine tag names db h = ground (
  arith,
  raise_first_locked-keeps (select (named_in names) (freed tag names db).nodes)
      (freed tag names db),
)

-- Where as many nodes are held as there are names, the release returns.
pub release_nodes_lem :
    (engine : Engine) (tag : String) (names : List String) (db : Db)
    → count_where (held_in tag names) db.nodes ≡ length names
    → release_nodes engine tag names db ≡ (ok tt, freed tag names db)
unfolding release_nodes session_for_write
release_nodes_lem engine tag names db h = ground arith

pub freed-reserved :
    (tag : String) (names : List String) (rows : List Node)
    → count_where (taken_in names) rows ≡ 0
    → let after = update_where (free_in names) (set_reservation (some tag)) rows in
      (count_where (held_in tag names) after ≡ count_where (free_in names) rows)
      × (update_where (held_in tag names) (set_reservation none) after ≡ rows)
freed-reserved tag names [] h = (refl, refl)
freed-reserved tag names (r ∷ rows) h = ground (arith, eq_refl tag, freed-reserved tag names rows)

-- Releasing under the same tag what a reservation that returned has locked succeeds and restores
-- all tables, if node names are unique and the database rolls back.
pub release_nodes-reserve_nodes :
    (engine : Engine) (tag : String) (names : List String) (db : Db) (rows : List Node)
    → RollsBack engine
    → UniqueNames db.nodes
    → (reserve_nodes engine tag names db).0 ≡ ok rows
    → release_nodes engine tag names (reserve_nodes engine tag names db).1 ≡ (ok tt, db)
release_nodes-reserve_nodes engine tag names db rows rb u h =
    let (full, after) = reserve_nodes-full engine tag names db rows rb h in
    let (held, restored) =
      freed-reserved tag names db.nodes (count-taken_in names db.nodes u full) in
    rw
      (
        after,
        release_nodes_lem engine tag names (reserved tag names db)
            (omega (arith, held, full, count-free_in-le names db.nodes u)),
      )
      (λ i. (ok tt, record db { nodes = restored i }))
