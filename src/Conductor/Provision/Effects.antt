-- ===== src/Conductor/Provision/Effects.antt =====
-- ConductorManager.provision of xcat3/conductor/manager.py: the replies and the nodes it writes.
use xcat.Prelude.{
  inl, inr, Bool-cases, ap, ℕ, ◌≡◌, refl, ◌∙◌, String, Bool, true, false, not, Option, List, [],
  ◌∷◌, arith, Dict, contains, contains_id, select, find_where, eqb, All, write_all,
}
use xcat.Db.{OsImage, Node, Db, Error, Result, ok, err, Action, ◌>>=◌, ◌>>◌, Engine, RollsBack}
use xcat.Db.Nodes.{has_id, Changes, update_ids, save_nodes}
use xcat.Db.Nodes.Save.{find-save_nodes_other, save_nodes-atomic}
use xcat.Db.Dhcp.{Opts, save_or_update_dhcp}
use xcat.Db.Dhcp.Laws.{nodes-save_or_update_dhcp}
use xcat.Conductor.{Conductor, lift, process_nodes_worker, succeeded, succeeded_nodes}
use xcat.Conductor.Provision.{
  Deployer, checks_images, lacks_image, configs_of, options, assignments, updates,
  record_deployment, deployable, refused_images, node_work, provision_finish, images_of,
  ensure_osimages, or_fill, provision_body,
}

-- Rows of that id bear that name.
abbrev pub IsNamed : ℕ → String → List Node → Type 0
IsNamed i n = All (λ (r : Node). eqb r.id i ≡ true → r.name ≡ n)

-- A node that is not among the successes is not among the ids that are saved.
other_id :
    (names : List String) (changes : Node → Changes) (i : ℕ) (n : String) (rows : List Node)
    → IsNamed i n rows
    → contains names n ≡ false
    → contains_id
        (update_ids (updates changes (select (λ (r : Node). contains names r.name) rows)))
        i
      ≡ false
other_id names changes i n [] named h = refl
other_id names changes i n (r ∷ rows) named h = elim (Bool-cases (eqb r.id i)) [
  | inl same ↦
      ground (arith, ap (contains names) (named.0 same), other_id names changes i n rows named.1 h)
  | inr other ↦ ground (arith, other_id names changes i n rows named.1 h)
]

find->> :
    (m k : Action (Unit {0})) (db : Db) (i : ℕ)
    → (m db).1.nodes ≡ db.nodes
    → find_where (has_id i) (k (m db).1).1.nodes ≡ find_where (has_id i) (m db).1.nodes
    → find_where (has_id i) ((m >> k) db).1.nodes ≡ find_where (has_id i) db.nodes
find->> m k db i h l =
    let kept : find_where (has_id i) (m db).1.nodes ≡ find_where (has_id i) db.nodes =
      ap (find_where (has_id i)) h in
    ground arith

module _ (d : Deployer) (work : Node → Result (Changes × Opts)) (result : Dict String)
    (rows : List Node) where
  record_deployment-keeps :
      (db : Db) (i : ℕ) (n : String)
      → RollsBack d.conductor.env.engine
      → IsNamed i n rows
      → contains (succeeded result) n ≡ false
      → find_where (has_id i) (record_deployment d work result rows db).1.nodes
        ≡ find_where (has_id i) db.nodes
  unfolding record_deployment
  record_deployment-keeps db i n rb named h =
      written (configs_of d (options work) (succeeded_nodes result rows))
    where
      engine : Engine
      engine = d.conductor.env.engine

      us : List (ℕ × Changes)
      us = updates (assignments work) (succeeded_nodes result rows)

      written :
          (configs : Result (Dict Opts))
          → find_where
              (has_id i)
              ((lift configs >>= λ cs.
                  (save_or_update_dhcp engine (succeeded result) cs >> save_nodes engine us))
                db).1.nodes
            ≡ find_where (has_id i) db.nodes
      written (err e) = refl
      written (ok cs) =
          let m = save_or_update_dhcp engine (succeeded result) cs in
          find->> m (save_nodes engine us) db i
            (nodes-save_or_update_dhcp engine (succeeded result) cs db rb)
            (find-save_nodes_other engine us (m db).1 i rb
              (other_id (succeeded result) (assignments work) i n rows named h))

-- What two calls of which each leaves the nodes alone where it raises do where they raise.
nodes->>-raised :
    (m k : Action (Unit {0})) (db : Db) (e : Error)
    → (m db).1.nodes ≡ db.nodes
    → ((e : Error) → (k (m db).1).0 ≡ err e → (k (m db).1).1 ≡ (m db).1)
    → ((m >> k) db).0 ≡ err e
    → ((m >> k) db).1.nodes ≡ db.nodes
nodes->>-raised m k db e h l raised = cases (m db) refl h l raised
  where
    cases :
        (p : Result (Unit {0}) × Db)
        → m db ≡ p
        → p.1.nodes ≡ db.nodes
        → ((e : Error) → (k p.1).0 ≡ err e → (k p.1).1 ≡ p.1)
        → (((λ _. p) >> k) db).0 ≡ err e
        → (((λ _. p) >> k) db).1.nodes ≡ db.nodes
    cases (ok tt, db') same h l raised = ap (λ (d : Db). d.nodes) (l e raised) ∙ h
    cases (err x, db') same h l raised = h

record_deployment-raised :
    (d : Deployer) (work : Node → Result (Changes × Opts)) (result : Dict String) (rows : List Node)
    (db : Db) (e : Error)
    → RollsBack d.conductor.env.engine
    → (record_deployment d work result rows db).0 ≡ err e
    → (record_deployment d work result rows db).1.nodes ≡ db.nodes
unfolding record_deployment
record_deployment-raised d work result rows db e rb raised =
    written (configs_of d (options work) (succeeded_nodes result rows)) raised
  where
    engine : Engine
    engine = d.conductor.env.engine

    us : List (ℕ × Changes)
    us = updates (assignments work) (succeeded_nodes result rows)

    write : Result (Dict Opts) → Action (Unit {0})
    write configs = lift configs >>= λ cs.
        (save_or_update_dhcp engine (succeeded result) cs >> save_nodes engine us)

    written :
        (configs : Result (Dict Opts))
        → (write configs db).0 ≡ err e
        → (write configs db).1.nodes ≡ db.nodes
    written (err x) raised = refl
    written (ok cs) raised =
        let m = save_or_update_dhcp engine (succeeded result) cs in
        nodes->>-raised m (save_nodes engine us) db e
          (nodes-save_or_update_dhcp engine (succeeded result) cs db rb)
          (λ x h. save_nodes-atomic engine us (m db).1 x rb h) raised

IsNamed-select :
    (i : ℕ) (n : String) (p : Node → Bool) (rows : List Node)
    → IsNamed i n rows
    → IsNamed i n (select p rows)
IsNamed-select i n p [] h = tt
IsNamed-select i n p (r ∷ rows) h = elim (Bool-cases (p r)) [
  | inl chosen ↦ rw chosen (h.0, IsNamed-select i n p rows h.1)
  | inr passed ↦ rw passed (IsNamed-select i n p rows h.1)
]

IsNamed-deployable :
    (i : ℕ) (n target : String) (osimage : Option OsImage) (rows : List Node)
    → IsNamed i n rows
    → IsNamed i n (deployable target osimage rows)
IsNamed-deployable i n target osimage rows h = elim (Bool-cases (checks_images target osimage)) [
  | inl checked ↦ rw checked (IsNamed-select i n (λ r. not (lacks_image r)) rows h)
  | inr unchecked ↦ rw unchecked h
]

-- Calls that leave the row of an id alone wherever they reply.
abbrev Keeps : ℕ → Db → Result (Dict String) × Db → Type 0
Keeps i db p = find_where (has_id i) p.1.nodes ≡ find_where (has_id i) db.nodes

lift-Keeps :
    {A : Type 0} (x : Result A) (f : A → Action (Dict String)) (db : Db) (final : Dict String)
    (i : ℕ)
    → ((a : A) → (f a db).0 ≡ ok final → Keeps i db (f a db))
    → ((lift x >>= f) db).0 ≡ ok final
    → Keeps i db ((lift x >>= f) db)
lift-Keeps (ok a) f db final i h replied = h a replied
lift-Keeps (err e) f db final i h replied = refl

abbrev reply_of : Dict String → Result (Dict String) → Dict String
reply_of other (ok r) = r
reply_of other (err e) = other

or_fill-Keeps :
    (c : Conductor) (result : Dict String) (names : List String) (m : Action (Unit {0})) (db : Db)
    (final : Dict String) (i : ℕ) (n : String)
    → ((e : Error) → (m db).0 ≡ err e → (m db).1.nodes ≡ db.nodes)
    → (contains (succeeded result) n ≡ false
        → find_where (has_id i) (m db).1.nodes ≡ find_where (has_id i) db.nodes)
    → contains (succeeded final) n ≡ false
    → (or_fill c result names m db).0 ≡ ok final
    → Keeps i db (or_fill c result names m db)
or_fill-Keeps c result names m db final i n h l failed replied = cases (m db) h l replied
  where
    cases :
        (p : Result (Unit {0}) × Db)
        → ((e : Error) → p.0 ≡ err e → p.1.nodes ≡ db.nodes)
        → (contains (succeeded result) n ≡ false
            → find_where (has_id i) p.1.nodes ≡ find_where (has_id i) db.nodes)
        → (or_fill c result names (λ _. p) db).0 ≡ ok final
        → Keeps i db (or_fill c result names (λ _. p) db)
    cases (ok _, db') h l replied = l (
        ap (λ (r : Result (Dict String)). contains (succeeded (reply_of result r)) n) replied
        ∙ failed)
    cases (err e, db') h l replied = ap (find_where (has_id i)) (h e refl)

-- If the body of provision replies, a node whose name is not among the successes of the reply is
-- found by its id as it was before, if all rows of the task with that id bear that name and the
-- database rolls back.
pub provision_body-keeps :
    (d : Deployer) (target : String) (osimage : Option OsImage) (rows : List Node) (db : Db)
    (final : Dict String) (i : ℕ) (n : String)
    → RollsBack d.conductor.env.engine
    → IsNamed i n rows
    → (provision_body d target osimage rows db).0 ≡ ok final
    → contains (succeeded final) n ≡ false
    → find_where (has_id i) (provision_body d target osimage rows db).1.nodes
      ≡ find_where (has_id i) db.nodes
unfolding provision_body
provision_body-keeps d target osimage rows db final i n rb named h failed =
    lift-Keeps (images_of d target osimage rows) ensure db final i
      (λ images.
        lift-Keeps (ensure_osimages d images) (λ _. run) db final i
          (λ _.
            lift-Keeps (process_nodes_worker d.conductor (provision_finish d work) rows') finish db
              final i
              (λ replies.
                or_fill-Keeps d.conductor (result replies) (succeeded (result replies))
                  (record_deployment d work (result replies) rows') db final i n
                  (λ e. record_deployment-raised d work (result replies) rows' db e rb)
                  (record_deployment-keeps d work (result replies) rows' db i n rb
                    (IsNamed-deployable i n target osimage rows named))
                  failed)))
      h
  where
    rows' : List Node
    rows' = deployable target osimage rows

    work : Node → Result (Changes × Opts)
    work = node_work d target osimage

    result : Dict String → Dict String
    result replies = write_all (refused_images target osimage rows) replies

    finish : Dict String → Action (Dict String)
    finish replies =
        or_fill d.conductor (result replies) (succeeded (result replies))
          (record_deployment d work (result replies) rows')

    run : Action (Dict String)
    run = lift (process_nodes_worker d.conductor (provision_finish d work) rows') >>= finish

    ensure : List OsImage → Action (Dict String)
    ensure images = lift (ensure_osimages d images) >>= λ _. run
