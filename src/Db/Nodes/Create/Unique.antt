-- ===== src/Db/Nodes/Create/Unique.antt =====
-- What a creation of nodes leaves: unique names, the nodes that were there, and the new ones.
use xcat.Prelude.{
  inl, inr, ◌⊎◌, Bool-cases, Option-cases, ap, sym, ◌∙◌, ◌≡◌, Bool, true, false, not, String, ◌==◌,
  eq_iff, eq_refl, some, List, [], ◌∷◌, ◌++◌, map, arith, is_none, contains, count_where,
  find_where, count_where-append, count_where-unfound, find_where-append,
}
use mathlib.Core.Path.{subst}
use xcat.Db.{
  Node, Nic, Db, Error, db_duplicate_entry, ok, err, Result-cases, Engine, RollsBack,
  session_for_write,
}
use xcat.Db.Nodes.{has_name}
use xcat.Db.Nodes.Counts.{UniqueNames}
use xcat.Db.Nodes.Create.{
  NewNode, is_name_taken, insert_nodes, insert_nics, cards_of, on, create_node, node_dict,
  nic_values, rows_of, bulk_insert_nodes, bulk_insert_nics, create_nodes,
}

-- Whether a node has the name
abbrev pub is_known : String → List Node → Bool
is_known n rows = not (is_none (find_where (has_name n) rows))

append-UniqueNames :
    (r : Node) (rows : List Node)
    → UniqueNames rows
    → is_name_taken r rows ≡ false
    → UniqueNames (rows ++ r ∷ [])
append-UniqueNames r rows u free n =
    rw (count_where-append (has_name n) rows (r ∷ [])) (elim (Bool-cases (r.name == n)) [
      | inl same ↦
          let e : r.name ≡ n = (eq_iff r.name n).0 same in
          let absent : is_none (find_where (has_name r.name) rows) ≡ true = ground (arith, free) in
          rw same (
            omega (
              arith,
              ap (λ k. count_where (has_name k) rows) (sym e)
                  ∙ count_where-unfound (has_name r.name) rows absent,
            ))
      | inr differs ↦ rw differs (omega (arith, u n))
    ])

-- What a table of nodes may become: names stay unique and known.
pub record Grows (before after : List Node) : Type 0 where
  pub unique : UniqueNames before → UniqueNames after
  pub known : (n : String) → is_known n before ≡ true → is_known n after ≡ true

pub Grows-refl : (rows : List Node) → Grows rows rows
Grows-refl rows = record { unique = λ u. u; known = λ n h. h }

pub Grows-trans : (a b c : List Node) → Grows a b → Grows b c → Grows a c
Grows-trans a b c g h = record {
  unique = λ u. h.unique (g.unique u);
  known = λ n k. h.known n (g.known n k);
}

append-known :
    (n : String) (rows more : List Node) → is_known n rows ≡ true → is_known n (rows ++ more) ≡ true
append-known n rows more h = ground (arith, find_where-append (has_name n) rows more, h)

append-new : (r : Node) (rows : List Node) → is_known r.name (rows ++ r ∷ []) ≡ true
append-new r rows =
    ground (arith, find_where-append (has_name r.name) rows (r ∷ []), eq_refl r.name)

append-Grows :
    (r : Node) (rows : List Node) → is_name_taken r rows ≡ false → Grows rows (rows ++ r ∷ [])
append-Grows r rows free = record {
  unique = λ u. append-UniqueNames r rows u free;
  known = λ n h. append-known n rows (r ∷ []) h;
}

insert_nodes-Grows :
    (new rows rows' : List Node) → insert_nodes new rows ≡ some rows' → Grows rows rows'
unfolding insert_nodes
insert_nodes-Grows [] rows rows' h = let e : rows ≡ rows' = cc in rw (sym e) (Grows-refl rows)
insert_nodes-Grows (r ∷ new) rows rows' h = elim (Bool-cases (is_name_taken r rows)) [
  | inl taken ↦ ground (arith, taken, h)
  | inr free ↦
      Grows-trans rows (rows ++ r ∷ []) rows' (append-Grows r rows free)
        (insert_nodes-Grows new (rows ++ r ∷ []) rows' (ground (arith, free, h)))
]

abbrev pub names_of : List Node → List String
names_of = map (λ (r : Node). r.name)

insert_nodes-known :
    (new rows rows' : List Node) (n : String)
    → insert_nodes new rows ≡ some rows'
    → contains (names_of new) n ≡ true
    → is_known n rows' ≡ true
unfolding insert_nodes
insert_nodes-known [] rows rows' n h k = cc
insert_nodes-known (r ∷ new) rows rows' n h k = elim (Bool-cases (is_name_taken r rows)) [
  | inl taken ↦ ground (arith, taken, h)
  | inr free ↦
      let rest : insert_nodes new (rows ++ r ∷ []) ≡ some rows' = ground (arith, free, h) in
      elim (Bool-cases (n == r.name)) [
        | inl same ↦
            let e : r.name ≡ n = sym ((eq_iff n r.name).0 same) in
            (insert_nodes-Grows new (rows ++ r ∷ []) rows' rest).known n
              (subst (λ k. is_known k (rows ++ r ∷ []) ≡ true) e (append-new r rows))
        | inr differs ↦
            insert_nodes-known new (rows ++ r ∷ []) rows' n rest (ground (arith, differs, k))
      ]
]

module _ (engine : Engine) (rb : RollsBack engine) where
  -- A creation raises and changes nothing, or adds its row.
  pub create_node-cases :
      (new : NewNode) (db : Db)
      → ((e : Error) × (create_node engine new db ≡ (err e, db)))
        ⊎ ((nics : List Nic) × (is_name_taken new.row db.nodes ≡ false)
            × (create_node engine new db
                ≡ (ok new.row, record db { nodes = db.nodes ++ new.row ∷ []; nics = nics })))
  unfolding create_node session_for_write
  create_node-cases new db = elim (Bool-cases (is_name_taken new.row db.nodes)) [
    | inl taken ↦ inl (db_duplicate_entry, ground (arith, taken, rb db db))
    | inr free ↦ elim (Option-cases (insert_nics (on new.row.id (cards_of new)) db.nics)) [
      | inl clash ↦ inl (db_duplicate_entry, ground (arith, free, clash, rb db db))
      | inr (nics, e) ↦ inr (nics, free, ground (arith, free, e))
    ]
  ]

  pub create_node-Grows :
      (new : NewNode) (db : Db) → Grows db.nodes (create_node engine new db).1.nodes
  create_node-Grows new db = elim (create_node-cases new db) [
    | inl (x, e) ↦ rw e (Grows-refl db.nodes)
    | inr (nics, free, e) ↦ rw e (append-Grows new.row db.nodes free)
  ]

  pub create_node-known :
      (new : NewNode) (db : Db) (r : Node)
      → (create_node engine new db).0 ≡ ok r
      → is_known new.row.name (create_node engine new db).1.nodes ≡ true
  create_node-known new db r h = elim (create_node-cases new db) [
    | inl (x, e) ↦ ground (arith, e, h)
    | inr (nics, free, e) ↦ rw e (append-new new.row db.nodes)
  ]

  -- The first transaction adds all rows or none, the second leaves the nodes.
  bulk_insert_nodes-cases :
      (values : List NewNode) (db : Db)
      → ((e : Error) × (bulk_insert_nodes engine values db ≡ (err e, db)))
        ⊎ ((rows : List Node) × (insert_nodes (rows_of values) db.nodes ≡ some rows)
            × (bulk_insert_nodes engine values db ≡ (ok tt, record db { nodes = rows })))
  unfolding bulk_insert_nodes session_for_write
  bulk_insert_nodes-cases values db = elim (Option-cases (insert_nodes (rows_of values) db.nodes)) [
    | inl clash ↦ inl (db_duplicate_entry, ground (arith, clash, rb db db))
    | inr (rows, e) ↦ inr (rows, e, ground (arith, e))
  ]

  bulk_insert_nics-nodes :
      (cards : List Nic) (db : Db) → (bulk_insert_nics engine cards db).1.nodes ≡ db.nodes
  unfolding bulk_insert_nics session_for_write
  bulk_insert_nics-nodes cards db = ground (arith, rb db db)

  rest_of_create-nodes :
      (values : List NewNode) (db db' : Db)
      → bulk_insert_nodes engine values db ≡ (ok tt, db')
      → (create_nodes engine values db).1.nodes ≡ db'.nodes
  unfolding create_nodes
  rest_of_create-nodes values db db' h =
      elim (Result-cases (nic_values (node_dict values []) db'.nodes)) [
        | inl (cards, e) ↦ ground (arith, h, e, bulk_insert_nics-nodes cards db')
        | inr (x, e) ↦ ground (arith, h, e)
      ]

  pub create_nodes-known :
      (values : List NewNode) (db : Db) (n : String)
      → (create_nodes engine values db).0 ≡ ok tt
      → contains (names_of (rows_of values)) n ≡ true
      → is_known n (create_nodes engine values db).1.nodes ≡ true
  unfolding create_nodes
  create_nodes-known values db n h k = elim (bulk_insert_nodes-cases values db) [
    | inl (x, e) ↦ ground (arith, e, h)
    | inr (rows, inserted, e) ↦
        subst (λ after. is_known n after ≡ true)
          (sym (rest_of_create-nodes values db (record db { nodes = rows }) e))
          (insert_nodes-known (rows_of values) db.nodes rows n inserted k)
  ]
