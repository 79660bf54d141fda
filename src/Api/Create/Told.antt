-- ===== src/Api/Create/Told.antt =====
-- What NodesController.post tells of a node, against the table that it leaves.
use mathlib.Core.Path.{subst}
use xcat.Prelude.{
  inl, inr, ◌⊎◌, Bool-cases, Option-cases, ap, sym, ◌∙◌, ◌≡◌, refl, Bool, true, false, ◌||◌, String,
  ◌==◌, eq_iff, eq_refl, some, List, [], ◌∷◌, ◌++◌, map, Dict, insert, lookup, lookup-insert,
  write_all, arith, if◌then◌else◌, ltb, is_text, contains, length,
}
use xcat.Db.{Db, Error, ok, RollsBack}
use xcat.Db.Nodes.Create.{NewNode, create_node, create_nodes, rows_of}
use xcat.Db.Nodes.Create.Unique.{
  is_known, names_of, create_node-cases, create_node-Grows, create_node-known, create_nodes-known,
}
use xcat.Conductor.{success}
use xcat.Api.{names_in}
use xcat.Api.Create.{
  Creator, refused, create_object, create_one, single_create, get_duplicate_list, duplicate_text,
  new_names, create_objects, unique_of, prepare, create_made, bulk_create, post,
}

-- No message of an exception reads like a success.
abbrev pub IsTelling : Creator → Type 0
IsTelling creator = (e : Error) → (creator.text e == success) ≡ false

-- The reply says of the name that it was created.
abbrev pub is_told : Dict String → String → Bool
is_told result n = is_text (lookup n result) success

told-insert :
    (n m message : String) (result : Dict String)
    → is_told (insert m message result) n
      ≡ (if m == n then message == success else is_told result n)
told-insert n m message result = ground (arith, lookup-insert m n message result)

module _ (creator : Creator) (rb : RollsBack creator.engine) (telling : IsTelling creator) where
  -- Whoever is told of is in the table.
  abbrev AllKnown : Dict String → Db → Type 0
  AllKnown result db = (n : String) → is_told result n ≡ true → is_known n db.nodes ≡ true

  -- The turn of a node tells of a failure and changes nothing, or creates it and tells so.
  abbrev Failed : NewNode → Dict String → Db → Type 0
  Failed node result db =
      ((n : String)
        → is_told (create_one creator node result db).0 n
          ≡ (if node.row.name == n then false else is_told result n))
      × ((create_one creator node result db).1 ≡ db)

  abbrev Created : NewNode → Dict String → Db → Type 0
  Created node result db =
      ((n : String)
        → is_told (create_one creator node result db).0 n
          ≡ (if node.row.name == n then true else is_told result n))
      × ((create_one creator node result db).1 ≡ (create_node creator.engine node db).1)
      × ((create_node creator.engine node db).0 ≡ ok node.row)

  create_one-cases :
      (node : NewNode) (result : Dict String) (db : Db)
      → Failed node result db ⊎ Created node result db
  unfolding create_one create_object
  create_one-cases node result db = elim (Option-cases (refused creator node)) [
    | inr (x, e) ↦ inl (
      (λ n. ground (arith, e, told-insert n node.row.name (creator.text x) result, telling x)),
      ground (arith, e),
    )
    | inl fine ↦ elim (create_node-cases creator.engine rb node db) [
      | inl (x, e) ↦ inl (
        (λ n. ground (
          arith,
          fine,
          e,
          told-insert n node.row.name (creator.text x) (insert node.row.name success result),
          told-insert n node.row.name success result,
          telling x,
        )),
        ground (arith, fine, e),
      )
      | inr (nics, free, e) ↦ inr (
        (λ n. ground (
          arith,
          fine,
          e,
          told-insert n node.row.name success (insert node.row.name success result),
          told-insert n node.row.name success result,
        )),
        ground (arith, fine, e),
        ground (arith, e),
      )
    ]
  ]

  create_one-AllKnown :
      (node : NewNode) (result : Dict String) (db : Db)
      → AllKnown result db
      → AllKnown (create_one creator node result db).0 (create_one creator node result db).1
  create_one-AllKnown node result db known n h = elim (create_one-cases node result db) [
    | inl (told, same) ↦
        subst (λ d. is_known n d.nodes ≡ true) (sym same) (known n (ground (arith, told n, h)))
    | inr (told, same, made) ↦
        subst (λ d. is_known n d.nodes ≡ true) (sym same)
          (elim (Bool-cases (node.row.name == n)) [
            | inl it ↦
                subst (λ k. is_known k (create_node creator.engine node db).1.nodes ≡ true)
                  ((eq_iff node.row.name n).0 it)
                  (create_node-known creator.engine rb node db node.row made)
            | inr another ↦
                (create_node-Grows creator.engine rb node db).known n
                  (known n (ground (arith, told n, another, h)))
          ])
  ]

  single_create-AllKnown :
      (nodes : List NewNode) (result : Dict String) (db : Db)
      → AllKnown result db
      → AllKnown (single_create creator nodes result db).0 (single_create creator nodes result db).1
  unfolding single_create
  single_create-AllKnown [] result db known = known
  single_create-AllKnown (node ∷ nodes) result db known =
      let one = create_one creator node result db in
      single_create-AllKnown nodes one.0 one.1 (create_one-AllKnown node result db known)

  -- In bulk, whoever is told of is among the objects.
  create_objects-told :
      (nodes : List NewNode) (result : Dict String) (n : String)
      → is_told (create_objects creator nodes result).0 n ≡ true
      → (is_told result n
          || contains (names_of (rows_of (create_objects creator nodes result).1)) n)
        ≡ true
  unfolding create_objects create_object
  create_objects-told [] result n h = ground (arith, h)
  create_objects-told (node ∷ nodes) result n h = elim (Option-cases (refused creator node)) [
    | inl fine ↦ ground (
      arith,
      fine,
      h,
      eq_iff n node.row.name,
      eq_iff node.row.name n,
      told-insert n node.row.name success result,
      create_objects-told nodes (insert node.row.name success result) n,
    )
    | inr (x, e) ↦ ground (
      arith,
      e,
      h,
      telling x,
      told-insert n node.row.name (creator.text x) result,
      create_objects-told nodes (insert node.row.name (creator.text x) result) n,
    )
  ]

  duplicates-untold :
      (dups : List String) (result : Dict String) (n : String)
      → is_told result n ≡ false
      → is_told (write_all (map (λ n. (n, duplicate_text)) dups) result) n ≡ false
  duplicates-untold [] result n h = h
  duplicates-untold (m ∷ dups) result n h =
      duplicates-untold dups (insert m duplicate_text result) n
        (ground (arith, told-insert n m duplicate_text result, h))

  create_made-known :
      (told result : Dict String) (made : List NewNode) (db : Db) (n : String)
      → (create_made creator told made db).0 ≡ ok result
      → contains (names_of (rows_of made)) n ≡ true
      → is_known n (create_made creator told made db).1.nodes ≡ true
  unfolding create_made
  create_made-known told result [] db n h k = cc
  create_made-known told result (node ∷ made) db n h k =
      let created : (create_nodes creator.engine (node ∷ made) db).0 ≡ ok tt = ground (arith, h) in
      let same : (create_made creator told (node ∷ made) db).1.nodes
          ≡ (create_nodes creator.engine (node ∷ made) db).1.nodes =
        ground (arith, h) in
      subst (λ after. is_known n after ≡ true) (sym same)
        (create_nodes-known creator.engine rb (node ∷ made) db n created k)

  create_made-told :
      (told result : Dict String) (made : List NewNode) (db : Db)
      → (create_made creator told made db).0 ≡ ok result
      → told ≡ result
  unfolding create_made
  create_made-told told result made db h = ground (arith, h)

  prepare-told :
      (nodes : List NewNode) (db : Db) (n : String)
      → is_told (prepare creator nodes db).0 n ≡ true
      → contains (names_of (rows_of (prepare creator nodes db).1)) n ≡ true
  unfolding prepare
  prepare-told nodes db n h =
      let dups = get_duplicate_list (new_names nodes ++ names_in (new_names nodes) [] db) in
      let start = write_all (map (λ n. (n, duplicate_text)) dups) [] in
      let untold : is_told start n ≡ false = duplicates-untold dups [] n refl in
      let split = create_objects-told (unique_of dups nodes) start n h in
      ground (arith, untold, split)

  -- If the post of nodes returns and its reply says of a name that it was created, a node of that
  -- name is in the table afterwards, whether the nodes were created one by one or in bulk, for
  -- messages of exceptions that differ from the text of a success and a database that rolls back.
  pub post-told :
      (nodes : List NewNode) (db : Db) (result : Dict String) (n : String)
      → (post creator nodes db).0 ≡ ok result
      → lookup n result ≡ some success
      → is_known n (post creator nodes db).1.nodes ≡ true
  unfolding post bulk_create
  post-told nodes db result n h said = elim (Bool-cases (ltb (length nodes) 15)) [
    | inl few ↦
        let same : (post creator nodes db).1 ≡ (single_create creator nodes [] db).1 =
          ground (arith, few) in
        let reply : (single_create creator nodes [] db).0 ≡ result = ground (arith, few, h) in
        let told : is_told (single_create creator nodes [] db).0 n ≡ true =
          rw (reply, said) (eq_refl success) in
        subst (λ d. is_known n d.nodes ≡ true) (sym same)
          (single_create-AllKnown nodes [] db (λ m k. cc) n told)
    | inr many ↦
        let p = prepare creator nodes db in
        let same : post creator nodes db ≡ create_made creator p.0 p.1 db = ground (arith, many) in
        let replied : (create_made creator p.0 p.1 db).0 ≡ ok result =
          ap (λ r. r.0) (sym same) ∙ h in
        let reply = create_made-told p.0 result p.1 db replied in
        let told : is_told p.0 n ≡ true = rw (reply, said) (eq_refl success) in
        subst (λ r. is_known n r.1.nodes ≡ true) (sym same)
          (create_made-known p.0 result p.1 db n replied (prepare-told nodes db n told))
  ]
