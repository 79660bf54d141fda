-- ===== src/Task/Exclusion.antt =====
-- Tasks of any number of conductors that lock and release nodes, in any order, as steps of a system.
-- Work that deletes nodes is not a step: a name that is deleted may be created and locked again while
-- the task that deleted it still has its lease.
use xcat.Prelude.{
  ◌+◌, ◌≤◌, ◌≡◌, refl, ap, Bool, true, not, ◌&&◌, String, ◌==◌, eq_iff, Option, none, some, List,
  [], ◌∷◌, ◌++◌, arith, contains, count_where, update_where, is_none, inl, inr, Bool-cases,
  count_where-update, count_where-append, count_where-disjoint,
}
use xcat.Db.{Node, Db, Error, Result, ok, err, Engine, RollsBack}
use xcat.Db.Nodes.{is_free, has_name, set_reservation, reserve_nodes, release_nodes}
use xcat.Db.Nodes.Counts.{UniqueNames, free_in, free_as, free_in-each}
use xcat.Db.Nodes.Reserve.{reserved, reserve_nodes-full, reserve_nodes-atomic}
use xcat.Db.Nodes.Release.{held_in, freed, release_nodes-frees, release_nodes-atomic}
use xcat.Task.Locks.{locks}

-- A task that has been granted its lock and has not released it.
pub record Lease : Type 0 where
  pub tag : String
  pub names : List String

pub record System : Type 0 where
  pub db : Db
  pub held : List Lease

abbrev pub holds : String → Lease → Bool
holds n l = contains l.names n

abbrev pub create_row : Node → Db → Db
create_row r db = record db { nodes = r ∷ db.nodes }

-- What the conductors may do next: reserve_nodes, granted or not, release_nodes, work on nodes that
-- leaves names and locks alone, and the creation of a node, unlocked and of a new name.
pub data Step (engine : Engine) (s : System) : System → Type 0 where
  acquire :
      (tag : String) (names : List String) (rows : List Node)
      → (reserve_nodes engine tag names s.db).0 ≡ ok rows
      → Step engine s (record {
        db = (reserve_nodes engine tag names s.db).1;
        held = record { tag = tag; names = names } ∷ s.held;
      })
  refuse :
      (tag : String) (names : List String) (e : Error)
      → (reserve_nodes engine tag names s.db).0 ≡ err e
      → Step engine s (record s { db = (reserve_nodes engine tag names s.db).1 })
  release :
      (l : Lease) (before after : List Lease)
      → s.held ≡ before ++ l ∷ after
      → Step engine s
          (record { db = (release_nodes engine l.tag l.names s.db).1; held = before ++ after })
  work : (db : Db) → locks db.nodes ≡ locks s.db.nodes → Step engine s (record s { db = db })
  create :
      (r : Node)
      → r.reservation ≡ none
      → count_where (has_name r.name) s.db.nodes ≡ 0
      → Step engine s (record s { db = create_row r s.db })

pub data Reach (engine : Engine) (s : System) : System → Type 0 where
  start : Reach engine s s
  step : {t u : System} → Reach engine s t → Step engine t u → Reach engine s u

abbrev taken_as : String → Node → Bool
taken_as n r = has_name n r && not (is_free r)

-- Names are unique, and each lease on a name stands on a row of that name that is locked.
pub record IsExclusive (s : System) : Type 0 where
  pub unique : UniqueNames s.db.nodes
  pub backed : (n : String) → count_where (holds n) s.held ≤ count_where (taken_as n) s.db.nodes

name_pair : String → String × Option String → Bool
name_pair n p = p.0 == n

taken_pair : String → String × Option String → Bool
taken_pair n p = p.0 == n && not (is_none p.1)

count-has_name :
    (n : String) (rows : List Node)
    → count_where (has_name n) rows ≡ count_where (name_pair n) (locks rows)
unfolding name_pair
count-has_name n [] = refl
count-has_name n (r ∷ rows) = omega (arith, count-has_name n rows)

count-taken_as :
    (n : String) (rows : List Node)
    → count_where (taken_as n) rows ≡ count_where (taken_pair n) (locks rows)
unfolding taken_pair
count-taken_as n [] = refl
count-taken_as n (r ∷ rows) = omega (arith, count-taken_as n rows)

count-free-taken :
    (n : String) (rows : List Node)
    → count_where (free_as n) rows + count_where (taken_as n) rows ≤ count_where (has_name n) rows
count-free-taken n rows =
    count_where-disjoint (has_name n) (free_as n) (taken_as n) rows (λ r h. ground arith)
      (λ r h. ground arith)

-- A reservation of a name leaves no free row of that name.
taken-reserved :
    (tag : String) (names : List String) (n : String) (rows : List Node)
    → contains names n ≡ true
    → count_where (taken_as n) (update_where (free_in names) (set_reservation (some tag)) rows)
      ≡ count_where (has_name n) rows
taken-reserved tag names n [] h = refl
taken-reserved tag names n (r ∷ rows) h =
    ground (arith, eq_iff r.name n, taken-reserved tag names n rows h)

module _ (engine : Engine) (rb : RollsBack engine) where
  acquire-backed :
      (s : System) (tag : String) (names : List String) (rows : List Node) (n : String)
      → IsExclusive s
      → (reserve_nodes engine tag names s.db).0 ≡ ok rows
      → count_where (holds n) (record { tag = tag; names = names } ∷ s.held)
        ≤ count_where (taken_as n) (reserved tag names s.db).nodes
  acquire-backed s tag names rows n inv h =
      let (full, after) = reserve_nodes-full engine tag names s.db rows rb h in
      elim (Bool-cases (contains names n)) [
        | inl asked ↦
            rw (asked, taken-reserved tag names n s.db.nodes asked)
              (omega (
                arith,
                free_in-each names s.db.nodes n inv.unique full asked,
                count-free-taken n s.db.nodes,
                inv.unique n,
                inv.backed n,
              ))
        | inr other ↦
            rw
              (
                other,
                count_where-update (free_in names) (taken_as n) (set_reservation (some tag))
                    s.db.nodes (λ r p. ground (arith, eq_iff r.name n)),
              )
              (omega (arith, inv.backed n))
      ]

  release-backed :
      (s : System) (l : Lease) (before after : List Lease) (n : String)
      → IsExclusive s
      → s.held ≡ before ++ l ∷ after
      → count_where (holds n) (before ++ after)
        ≤ count_where (taken_as n) (freed l.tag l.names s.db).nodes
  release-backed s l before after n inv h = elim (Bool-cases (contains l.names n)) [
    | inl asked ↦ ground (
      arith,
      ap (count_where (holds n)) h,
      count_where-append (holds n) before (l ∷ after),
      count_where-append (holds n) before after,
      inv.backed n,
      count-free-taken n s.db.nodes,
      inv.unique n,
    )
    | inr other ↦ ground (
      arith,
      ap (count_where (holds n)) h,
      count_where-append (holds n) before (l ∷ after),
      count_where-append (holds n) before after,
      inv.backed n,
      count_where-update (held_in l.tag l.names) (taken_as n) (set_reservation none) s.db.nodes
          (λ r p. ground (arith, eq_iff r.name n)),
    )
  ]

  -- A release that fails is rolled back, and its lease is given up all the same.
  dropped-backed :
      (s : System) (l : Lease) (before after : List Lease) (n : String)
      → IsExclusive s
      → s.held ≡ before ++ l ∷ after
      → count_where (holds n) (before ++ after) ≤ count_where (taken_as n) s.db.nodes
  dropped-backed s l before after n inv h = ground (
    arith,
    ap (count_where (holds n)) h,
    count_where-append (holds n) before (l ∷ after),
    count_where-append (holds n) before after,
    inv.backed n,
  )

  release-IsExclusive :
      (s : System) (l : Lease) (before after : List Lease) (o : Result (Unit {0}))
      → (release_nodes engine l.tag l.names s.db).0 ≡ o
      → IsExclusive s
      → s.held ≡ before ++ l ∷ after
      → IsExclusive
          (record { db = (release_nodes engine l.tag l.names s.db).1; held = before ++ after })
  release-IsExclusive s l before after (ok tt) e inv h =
      rw (release_nodes-frees engine l.tag l.names s.db e) (record {
        unique = λ n. omega (
          arith,
          count_where-update (held_in l.tag l.names) (has_name n) (set_reservation none) s.db.nodes
              (λ r p. refl),
          inv.unique n,
        );
        backed = λ n. release-backed s l before after n inv h;
      })
  release-IsExclusive s l before after (err x) e inv h =
      rw (release_nodes-atomic engine l.tag l.names s.db x rb e)
        (record { unique = inv.unique; backed = λ n. dropped-backed s l before after n inv h })

  -- Every step keeps it.
  pub Step-IsExclusive : {s t : System} → Step engine s t → IsExclusive s → IsExclusive t
  Step-IsExclusive {s} (acquire tag names rows h) inv =
      rw (reserve_nodes-full engine tag names s.db rows rb h).1 (record {
        unique = λ n. omega (
          arith,
          count_where-update (free_in names) (has_name n) (set_reservation (some tag)) s.db.nodes
              (λ r p. refl),
          inv.unique n,
        );
        backed = λ n. acquire-backed s tag names rows n inv h;
      })
  Step-IsExclusive {s} (refuse tag names e h) inv =
      rw (reserve_nodes-atomic engine tag names s.db e rb h)
        (record { unique = inv.unique; backed = inv.backed })
  Step-IsExclusive {s} (release l before after h) inv =
      release-IsExclusive s l before after (release_nodes engine l.tag l.names s.db).0 refl inv h
  Step-IsExclusive {s} (work db h) inv = record {
    unique = λ n. omega (
      arith,
      inv.unique n,
      count-has_name n db.nodes,
      count-has_name n s.db.nodes,
      ap (count_where (name_pair n)) h,
    );
    backed = λ n. omega (
      arith,
      inv.backed n,
      count-taken_as n db.nodes,
      count-taken_as n s.db.nodes,
      ap (count_where (taken_pair n)) h,
    );
  }
  Step-IsExclusive {s} (create r free new) inv = record {
    unique = λ n. elim (Bool-cases (r.name == n)) [
      | inl same ↦ ground (
        arith,
        eq_iff r.name n,
        new,
        ap (λ m. count_where (has_name m) s.db.nodes) ((eq_iff r.name n).0 same),
      )
      | inr other ↦ ground (arith, inv.unique n)
    ];
    backed = λ n. ground (arith, inv.backed n);
  }

  pub Reach-IsExclusive : {s t : System} → IsExclusive s → Reach engine s t → IsExclusive t
  Reach-IsExclusive inv start = inv
  Reach-IsExclusive inv (step r st) = Step-IsExclusive st (Reach-IsExclusive inv r)

  -- Starting from a table whose node names are unique and with no lease held, after any sequence
  -- of reservations, refused reservations, releases, work that leaves names and locks alone, and
  -- creations of unlocked nodes with new names, at most one lease holds any given node name, if
  -- the database rolls back what an exception interrupts.
  pub mutual_exclusion :
      (s t : System) (n : String)
      → UniqueNames s.db.nodes
      → s.held ≡ []
      → Reach engine s t
      → count_where (holds n) t.held ≤ 1
  mutual_exclusion s t n u none_held r =
      let inv =
        Reach-IsExclusive (record { unique = u; backed = λ m. rw none_held (omega arith) }) r in
      omega (arith, inv.backed n, count-free-taken n t.db.nodes, inv.unique n)
