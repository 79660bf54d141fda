-- ===== src/Db/Nodes/Reserve.antt =====
-- Connection.reserve_nodes of xcat3/db/sqlalchemy/api.py, on each of its outcomes.
use xcat.Prelude.{
  ◌≤◌, ◌≡◌, refl, true, false, String, ◌==◌, eq_iff, none, some, List, arith, if◌then◌else◌,
  contains, length, is_empty, select, count_where, update_where, find_where, find_where-update,
  Option-cases, count_where_mono, count_where-update, find_where-meets, length-select, inl, inr,
  eqb,
}
use mathlib.Core.Option
use xcat.Db.{
  Node, Db, Error, node_not_found, node_locked, ok, err, Engine, RollsBack, named_in,
  session_for_write,
}
use xcat.Db.Nodes.{is_free, has_name, set_reservation, reserve_nodes}
use xcat.Db.Nodes.Counts.{
  UniqueNames, distinct, length-le-count-free_in, free_as-of-find, free_in, count-free_in-le,
  free_in-each, find-free_as,
}

-- The tables after a reservation.
abbrev pub reserved : String → List String → Db → Db
reserved tag names db = record db {
  nodes = update_where (free_in names) (set_reservation (some tag)) db.nodes;
}

-- The three outcomes, as a function of what the table holds.
reserve_nodes_lem :
    (engine : Engine) (tag : String) (names : List String) (db : Db)
    → RollsBack engine
    → reserve_nodes engine tag names db ≡ (
        let rows = select (named_in names) (reserved tag names db).nodes in
        if is_empty rows
        then (err node_not_found, db)
        else if eqb (count_where (free_in names) db.nodes) (length names)
        then (ok rows, reserved tag names db)
        else (err node_locked, db))
unfolding reserve_nodes session_for_write
reserve_nodes_lem engine tag names db rb = ground (arith, rb db (reserved tag names db))

-- If reserve_nodes raises, all tables are as before, if the database rolls back.
pub reserve_nodes-atomic :
    (engine : Engine) (tag : String) (names : List String) (db : Db) (e : Error)
    → RollsBack engine
    → (reserve_nodes engine tag names db).0 ≡ err e
    → (reserve_nodes engine tag names db).1 ≡ db
reserve_nodes-atomic engine tag names db e rb =
    rw (reserve_nodes_lem engine tag names db rb) (λ h. ground arith)

-- A reservation that returns has locked as many free rows as it was given names.
pub reserve_nodes-full :
    (engine : Engine) (tag : String) (names : List String) (db : Db) (rows : List Node)
    → RollsBack engine
    → (reserve_nodes engine tag names db).0 ≡ ok rows
    → (length names ≤ count_where (free_in names) db.nodes)
      × ((reserve_nodes engine tag names db).1 ≡ reserved tag names db)
reserve_nodes-full engine tag names db rows rb =
    rw (reserve_nodes_lem engine tag names db rb) (λ h. ground arith)

-- It returns the rows of the request as they are now, and at least one.
pub reserve_nodes-rows :
    (engine : Engine) (tag : String) (names : List String) (db : Db) (rows : List Node)
    → RollsBack engine
    → (reserve_nodes engine tag names db).0 ≡ ok rows
    → (rows ≡ select (named_in names) (reserved tag names db).nodes) × (is_empty rows ≡ false)
reserve_nodes-rows engine tag names db rows rb =
    rw (reserve_nodes_lem engine tag names db rb) (λ h. ground arith)

-- The row of a name in the tables after a reservation.
pub find-reserved :
    (tag : String) (names : List String) (db : Db) (n : String)
    → find_where (has_name n) (reserved tag names db).nodes
      ≡ Option.map
          (λ r. if free_in names r then set_reservation (some tag) r else r)
          (find_where (has_name n) db.nodes)
find-reserved tag names db n =
    find_where-update (has_name n) (free_in names) (set_reservation (some tag)) db.nodes (λ r. refl)

-- If reserve_nodes returns and node names are unique, each requested name had a node that was
-- free, and that node now is locked under the tag with nothing else of it changed, if the database
-- rolls back.
pub reserve_nodes-locks :
    (engine : Engine) (tag : String) (names : List String) (db : Db) (rows : List Node) (n : String)
    → RollsBack engine
    → UniqueNames db.nodes
    → (reserve_nodes engine tag names db).0 ≡ ok rows
    → contains names n ≡ true
    → (r : Node) × (find_where (has_name n) db.nodes ≡ some r)
      × (r.reservation ≡ none)
      × (find_where (has_name n) (reserve_nodes engine tag names db).1.nodes
          ≡ some (set_reservation (some tag) r))
reserve_nodes-locks engine tag names db rows n rb u h asked =
    let (full, after) = reserve_nodes-full engine tag names db rows rb h in
    let (r, found, free) =
      find-free_as n db.nodes (u n) (free_in-each names db.nodes n u full asked) in
    let named : (r.name == n) ≡ true = find_where-meets (has_name n) db.nodes r found in
    (
      r,
      found,
      free,
      rw (after, find-reserved tag names db n, found) (ground (arith, eq_iff r.name n)),
    )

find-reserved_other :
    (tag : String) (names : List String) (db : Db) (n : String)
    → contains names n ≡ false
    → find_where (has_name n) (reserved tag names db).nodes ≡ find_where (has_name n) db.nodes
find-reserved_other tag names db n other = elim (Option-cases (find_where (has_name n) db.nodes)) [
  | inl missing ↦ rw (find-reserved tag names db n, missing)
  | inr (r, found) ↦
      rw (find-reserved tag names db n, found)
        (ground (arith, find_where-meets (has_name n) db.nodes r found, eq_iff r.name n))
]

-- Whether reserve_nodes returns or raises, the node of a name that was not requested is as before,
-- if the database rolls back.
pub reserve_nodes-others :
    (engine : Engine) (tag : String) (names : List String) (db : Db) (n : String)
    → RollsBack engine
    → contains names n ≡ false
    → find_where (has_name n) (reserve_nodes engine tag names db).1.nodes
      ≡ find_where (has_name n) db.nodes
reserve_nodes-others engine tag names db n rb other =
    rw (reserve_nodes_lem engine tag names db rb)
      (ground (arith, find-reserved_other tag names db n other))

-- Rows that were free are found again after the update.
rows-reserved :
    (tag : String) (names : List String) (db : Db)
    → is_empty (select (named_in names) (reserved tag names db).nodes) ≡ true
    → count_where (free_in names) db.nodes ≡ 0
rows-reserved tag names db h = ground (
  arith,
  length-select (named_in names) (reserved tag names db).nodes,
  count_where-update (free_in names) (named_in names) (set_reservation (some tag)) db.nodes
      (λ r h. refl),
  count_where_mono (free_in names) (named_in names) db.nodes (λ r h. ground arith),
)

-- A reservation of a non-empty list of distinct names, each of which has a free node, returns, if
-- node names are unique and the database rolls back.
pub reserve_nodes-succeeds :
    (engine : Engine) (tag : String) (names : List String) (db : Db)
    → RollsBack engine
    → UniqueNames db.nodes
    → distinct names ≡ true
    → is_empty names ≡ false
    → ((n : String)
        → contains names n ≡ true
        → (r : Node) × (find_where (has_name n) db.nodes ≡ some r) × (r.reservation ≡ none))
    → (rows : List Node) × ((reserve_nodes engine tag names db).0 ≡ ok rows)
reserve_nodes-succeeds engine tag names db rb u d ne free =
    let full : length names ≤ count_where (free_in names) db.nodes =
      length-le-count-free_in names db.nodes d (λ n asked.
        let (r, found, is_free) = free n asked in free_as-of-find n db.nodes r found is_free) in
    (
      select (named_in names) (reserved tag names db).nodes,
      rw (reserve_nodes_lem engine tag names db rb)
          (ground (arith, full, count-free_in-le names db.nodes u, rows-reserved tag names db)),
    )
