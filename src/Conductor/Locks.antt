-- ===== src/Conductor/Locks.antt =====
-- The locks of nodes during provision, clean and change_power_state of
-- xcat3/conductor/manager.py.
use xcat.Prelude.{
  inl, inr, ℕ, suc, ◌≡◌, refl, ap, ◌∙◌, String, Option, List, [], ◌∷◌, arith, Dict, update_where,
  write_all, if◌then◌else◌,
}
use xcat.Db.{OsImage, Node, Db, Result, ok, err, Action, ◌>>=◌, ◌>>◌, pure, Engine, RollsBack}
use xcat.Db.Nodes.{Changes, id_in, update_ids, apply_updates, save_nodes}
use xcat.Db.Nodes.Counts.{UniqueNames}
use xcat.Db.Nodes.Save.{apply_updates-keeps, save_nodes-saves, save_nodes-atomic, Result-cases}
use xcat.Db.Dhcp.{Opts, save_or_update_dhcp}
use xcat.Db.Dhcp.Laws.{nodes-save_or_update_dhcp}
use xcat.Task.{IsRetry}
use xcat.Task.Locks.{locks, Waited, with_task-restores_locks}
use xcat.Conductor.{
  Conductor, future, power_work, change_power_state, lift, process_nodes_worker, succeeded,
  succeeded_nodes, unfinished,
}
use xcat.Conductor.Provision.{
  Deployer, updates, assignments, options, configs_of, images_of, ensure_osimages, node_work,
  provision_finish, deployable, refused_images, or_fill, record_deployment, provision_body,
  provision,
}
use xcat.Conductor.Clean.{clean_body, clean, or_fill_all, clean_work, clean_changes, ended}

-- A call that leaves names and locks alone.
abbrev IsQuiet : {A : Type 0} → Action A → Type 0
IsQuiet m = (db : Db) → locks (m db).1.nodes ≡ locks db.nodes

IsQuiet-bind :
    {A B : Type 0} (m : Action A) (f : A → Action B)
    → IsQuiet m
    → ((a : A) → IsQuiet (f a))
    → IsQuiet (m >>= f)
IsQuiet-bind {A = A} m f quiet quiets db = cases (m db) refl (quiet db)
  where
    cases :
        (p : Result A × Db)
        → m db ≡ p
        → locks p.1.nodes ≡ locks db.nodes
        → locks (((λ _. p) >>= f) db).1.nodes ≡ locks db.nodes
    cases (ok a, db') e h = quiets a db' ∙ h
    cases (err x, db') e h = h

IsQuiet-or_fill :
    (c : Conductor) (result : Dict String) (names : List String) (m : Action (Unit {0}))
    → IsQuiet m
    → IsQuiet (or_fill c result names m)
IsQuiet-or_fill c result names m quiet db = cases (m db) (quiet db)
  where
    cases :
        (p : Result (Unit {0}) × Db)
        → locks p.1.nodes ≡ locks db.nodes
        → locks (or_fill c result names (λ _. p) db).1.nodes ≡ locks db.nodes
    cases (ok _, db') h = h
    cases (err x, db') h = h

IsQuiet-or_fill_all :
    (c : Conductor) (names : List String) (m : Action (Dict String))
    → IsQuiet m
    → IsQuiet (or_fill_all c names m)
IsQuiet-or_fill_all c names m quiet db = cases (m db) (quiet db)
  where
    cases :
        (p : Result (Dict String) × Db)
        → locks p.1.nodes ≡ locks db.nodes
        → locks (or_fill_all c names (λ _. p) db).1.nodes ≡ locks db.nodes
    cases (ok _, db') h = h
    cases (err x, db') h = h

locks-apply_updates :
    (us : List (ℕ × Changes)) (ids : List ℕ) (rows : List Node)
    → locks (update_where (id_in ids) (apply_updates us) rows) ≡ locks rows
locks-apply_updates us ids [] = refl
locks-apply_updates us ids (r ∷ rows) =
    ground (arith, apply_updates-keeps us r, locks-apply_updates us ids rows)

module _ (engine : Engine) (rb : RollsBack engine) where
  IsQuiet-save_nodes : (us : List (ℕ × Changes)) → IsQuiet (save_nodes engine us)
  IsQuiet-save_nodes us db = elim (Result-cases (save_nodes engine us db).0) [
    | inl saves ↦
        rw (save_nodes-saves engine us db saves) (locks-apply_updates us (update_ids us) db.nodes)
    | inr (e, raises) ↦ rw (save_nodes-atomic engine us db e rb raises)
  ]

  IsQuiet-save_or_update_dhcp :
      (names : List String) (opts : Dict Opts) → IsQuiet (save_or_update_dhcp engine names opts)
  IsQuiet-save_or_update_dhcp names opts db =
      ap locks (nodes-save_or_update_dhcp engine names opts db rb)

module _ (d : Deployer) (rb : RollsBack d.conductor.env.engine) where
  abbrev engine : Engine
  engine = d.conductor.env.engine

  IsQuiet-record_deployment :
      (work : Node → Result (Changes × Opts)) (result : Dict String) (rows : List Node)
      → IsQuiet (record_deployment d work result rows)
  unfolding record_deployment
  IsQuiet-record_deployment work result rows =
      let us = updates (assignments work) (succeeded_nodes result rows) in
      IsQuiet-bind (lift (configs_of d (options work) (succeeded_nodes result rows)))
        (λ cs. save_or_update_dhcp engine (succeeded result) cs >> save_nodes engine us)
        (λ db. refl)
        (λ cs.
          IsQuiet-bind (save_or_update_dhcp engine (succeeded result) cs)
            (λ _. save_nodes engine us)
            (IsQuiet-save_or_update_dhcp engine rb (succeeded result) cs)
            (λ _. IsQuiet-save_nodes engine rb us))

  IsQuiet-provision_body :
      (target : String) (osimage : Option OsImage) (rows : List Node)
      → IsQuiet (provision_body d target osimage rows)
  unfolding provision_body
  IsQuiet-provision_body target osimage rows =
      IsQuiet-bind (lift (images_of d target osimage rows))
        (λ images. lift (ensure_osimages d images) >> run) (λ db. refl)
        (λ images.
          IsQuiet-bind (lift (ensure_osimages d images)) (λ _. run) (λ db. refl)
            (λ _.
              IsQuiet-bind (lift (process_nodes_worker d.conductor (provision_finish d work) rows'))
                finish (λ db. refl)
                (λ replies.
                  IsQuiet-or_fill d.conductor (result replies) (succeeded (result replies))
                    (record_deployment d work (result replies) rows')
                    (IsQuiet-record_deployment work (result replies) rows'))))
    where
      rows' : List Node
      rows' = deployable target osimage rows

      work : Node → Result (Changes × Opts)
      work = node_work d target osimage

      result : Dict String → Dict String
      result replies = write_all (refused_images target osimage rows) replies

      finish : Dict String → Action (Dict String)
      finish replies =
          or_fill d.conductor (result replies) (succeeded (result replies))
            (record_deployment d work (result replies) rows')

      run : Action (Dict String)
      run = lift (process_nodes_worker d.conductor (provision_finish d work) rows') >>= finish

  IsQuiet-clean_body :
      (partial : Node → Changes) (names : List String) (rows : List Node)
      → IsQuiet (clean_body d partial names rows)
  unfolding clean_body
  IsQuiet-clean_body partial names rows =
      IsQuiet-or_fill_all d.conductor names (lift worked >>= save) (
        IsQuiet-bind (lift worked) save (λ db. refl)
          (λ result.
            IsQuiet-bind (save_nodes engine us) (λ _. pure result) (IsQuiet-save_nodes engine rb us)
              (λ _ db. refl)))
    where
      worked : Result (Dict String)
      worked =
          process_nodes_worker d.conductor
            (λ node. if d.conductor.in_time node then ended (clean_work d node) else unfinished)
            rows

      us : List (ℕ × Changes)
      us =
          updates (λ node. if d.conductor.in_time node then clean_changes d node else partial node)
            rows

      save : Dict String → Action (Dict String)
      save result = save_nodes engine us >> pure result

  -- What holds at the moment at which a request gets its locks, and what it leaves.
  abbrev pub RestoresLocks : List String → Db → Db → Type 0
  RestoresLocks names db db' =
      (at : Db) × Waited d.conductor.env.others db at × (locks db'.nodes ≡ locks at.nodes)

  module _ (law : IsRetry d.conductor.env.retry) (k : ℕ) (db : Db)
      (n : d.conductor.env.attempts ≡ suc k)
      (u : (at : Db) → Waited d.conductor.env.others db at → UniqueNames at.nodes) where
    -- A provision request, however its plugins, image download and database writes end, leaves the
    -- locks of all nodes as they were on the tables at which its own lock was tried last, if at
    -- least one attempt is configured, the retry decorator and the rollback behave as documented,
    -- and names are unique on all tables that may be met while waiting.
    pub provision-RestoresLocks :
        (names : List String) (target : String) (osimage : Option OsImage)
        → RestoresLocks names db (provision d names target osimage db).1
    unfolding provision
    provision-RestoresLocks names target osimage =
        let (at, w, _, same) =
          with_task-restores_locks d.conductor.env law rb names (provision_body d target osimage) k
            db n u (IsQuiet-provision_body target osimage) in
        (at, w, same)

    -- A clean request, however its plugins and the save end and whatever unfinished threads have
    -- assigned, leaves the locks of all nodes as they were on the tables at which its own lock was
    -- tried last, if at least one attempt is configured, the retry decorator and the rollback
    -- behave as documented, and names are unique on all tables that may be met while waiting.
    pub clean-RestoresLocks :
        (partial : Node → Changes) (names : List String)
        → RestoresLocks names db (clean d partial names db).1
    unfolding clean
    clean-RestoresLocks partial names =
        let (at, w, _, same) =
          with_task-restores_locks d.conductor.env law rb names (clean_body d partial names) k db n
            u (IsQuiet-clean_body partial names) in
        (at, w, same)

    -- A change_power_state request, however its plugins end, leaves the locks of all nodes as they
    -- were on the tables at which its own lock was tried last, if at least one attempt is
    -- configured, the retry decorator and the rollback behave as documented, and names are unique
    -- on all tables that may be met while waiting.
    pub change_power_state-RestoresLocks :
        (names : List String) (target : String)
        → RestoresLocks names db (change_power_state d.conductor names target db).1
    unfolding change_power_state
    change_power_state-RestoresLocks names target =
        let (at, w, _, same) =
          with_task-restores_locks d.conductor.env law rb names
            (λ rows. lift (
              process_nodes_worker d.conductor (future d.conductor (power_work d.conductor target))
                rows))
            k db n u (λ rows now. refl) in
        (at, w, same)
