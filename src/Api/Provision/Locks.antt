-- ===== src/Api/Provision/Locks.antt =====
-- The locks of nodes over a whole provision request: NodeProvisionController.put with the conductors.
use xcat.Prelude.{
  inl, inr, ap, ◌∙◌, ℕ, suc, ◌≡◌, refl, false, String, ◌==◌, Option, List, [], ◌∷◌, arith, Dict,
  count_where,
}
use xcat.Db.{Result-cases, session_for_write, Node, OsImage, Passwd, Network, Db, RollsBack}
use xcat.Db.Nodes.{has_name}
use xcat.Db.Nodes.Counts.{UniqueNames}
use xcat.Db.Dhcp.{destroy_dhcp}
use xcat.Task.{Meanwhile, IsRetry}
use xcat.Task.Locks.{locks, Waited, now, later}
use xcat.Conductor.Provision as Manager
use xcat.Conductor.Clean as Cleaner
use xcat.Conductor.Provision.{Deployer}
use xcat.Conductor.Locks.{RestoresLocks, provision-RestoresLocks, clean-RestoresLocks}
use xcat.Api.{filter_unavailable_nodes}
use xcat.Api.Remote.{
  Method, provision, clean, Cluster, handle, run_calls, rpc_calls, affinity_calls, send, send_clean,
}
use xcat.Api.Provision.{Server, arguments, deploy, put_target, put_clean, put}

-- A conductor whose waits nobody uses, with a retry decorator and a database as documented
pub record IsCalm (d : Deployer) : Type 0 where
  pub rollback : RollsBack d.conductor.env.engine
  pub law : IsRetry d.conductor.env.retry
  pub attempts : ℕ
  pub tries : d.conductor.env.attempts ≡ suc attempts
  pub alone : (k : ℕ) (db : Db) → d.conductor.env.others k db ≡ db

Waited-alone :
    {others : Meanwhile} {db at : Db}
    → ((k : ℕ) (db : Db) → others k db ≡ db)
    → Waited others db at
    → at ≡ db
Waited-alone alone (now db) = refl
Waited-alone alone (later k db at w) = Waited-alone alone w ∙ alone k db

count-locks :
    (n : String) (rows : List Node)
    → count_where (has_name n) rows ≡ count_where (λ p. p.0 == n) (locks rows)
count-locks n [] = refl
count-locks n (r ∷ rows) = ground (arith, count-locks n rows)

locks-UniqueNames :
    (rows rows' : List Node) → locks rows' ≡ locks rows → UniqueNames rows → UniqueNames rows'
locks-UniqueNames rows rows' same u n =
    omega
      (arith, u n, count-locks n rows, count-locks n rows', ap (count_where (λ p. p.0 == n)) same)

RestoresLocks-alone :
    (d : Deployer) (calm : IsCalm d) (names : List String) (db db' : Db)
    → RestoresLocks d calm.rollback names db db'
    → locks db'.nodes ≡ locks db.nodes
RestoresLocks-alone d calm names db db' (at, w, same) =
    same ∙ ap (λ (b : Db). locks b.nodes) (Waited-alone calm.alone w)

module _ (c : Cluster) (calm : (topic : String) (m : Method) → IsCalm (c.deployer topic m)) where
  -- A method that leaves the locks as they were, on every conductor
  abbrev KeepsLocks : Method → Type 0
  KeepsLocks m =
      (topic : String) (names : List String) (db : Db)
      → UniqueNames db.nodes
      → locks (handle (c.deployer topic m) (c.partial topic) m names db).1.nodes ≡ locks db.nodes

  provision-KeepsLocks :
      (target : String) (osimage : Option OsImage) (passwd : Passwd) (subnet : Option Network)
      → KeepsLocks (provision target osimage passwd subnet)
  unfolding handle
  provision-KeepsLocks target osimage passwd subnet topic names db u =
      let m = provision target osimage passwd subnet in
      let quiet = calm topic m in
      let d = c.deployer topic m in
      RestoresLocks-alone d quiet names db (Manager.provision d names target osimage db).1 (
        provision-RestoresLocks d quiet.rollback quiet.law quiet.attempts db quiet.tries
          (λ at w.
            locks-UniqueNames db.nodes at.nodes
              (ap (λ (b : Db). locks b.nodes) (Waited-alone quiet.alone w)) u)
          names target osimage)

  clean-KeepsLocks : KeepsLocks clean
  unfolding handle
  clean-KeepsLocks topic names db u =
      let quiet = calm topic clean in
      let d = c.deployer topic clean in
      RestoresLocks-alone d quiet names db (Cleaner.clean d (c.partial topic) names db).1 (
        clean-RestoresLocks d quiet.rollback quiet.law quiet.attempts db quiet.tries
          (λ at w.
            locks-UniqueNames db.nodes at.nodes
              (ap (λ (b : Db). locks b.nodes) (Waited-alone quiet.alone w)) u)
          (c.partial topic) names)

  run_calls-locks :
      (m : Method)
      → KeepsLocks m
      → (calls : List (String × List String)) (db : Db) → UniqueNames db.nodes
      → locks (run_calls c m calls db).1.nodes ≡ locks db.nodes
  unfolding run_calls
  run_calls-locks m keeps [] db u = refl
  run_calls-locks m keeps ((topic, names) ∷ calls) db u =
      let once = keeps topic names db u in
      let db' = (handle (c.deployer topic m) (c.partial topic) m names db).1 in
      run_calls-locks m keeps calls db' (locks-UniqueNames db.nodes db'.nodes once u) ∙ once

  send-locks :
      (m : Method)
      → KeepsLocks m
      → (names : List String) (db : Db) → UniqueNames db.nodes
      → locks (send c m names db).1.nodes ≡ locks db.nodes
  unfolding send
  send-locks m keeps names db u = run_calls-locks m keeps (rpc_calls c names db) db u

  send_clean-locks :
      (result : Dict String) (names : List String) (db : Db)
      → UniqueNames db.nodes
      → locks (send_clean c result names db).1.nodes ≡ locks db.nodes
  unfolding send_clean destroy_dhcp session_for_write
  send_clean-locks result names db u =
      let db1 = (destroy_dhcp c.engine names db).1 in
      run_calls-locks clean clean-KeepsLocks (affinity_calls c names result db1) db1 u

module _ (s : Server)
    (calm : (topic : String) (m : Method) → IsCalm (s.cluster.deployer topic m)) where
  deploy-locks :
      (target : String) (found : Option Network × Option OsImage × Passwd) (names : List String)
      (result : Dict String) (db : Db)
      → UniqueNames db.nodes
      → locks (deploy s target found names result db).1.nodes ≡ locks db.nodes
  unfolding deploy
  deploy-locks target (network, image, passwd) names result db u =
      let m = provision target image passwd network in
      let keeps = provision-KeepsLocks s.cluster calm target image passwd network in
      ground (arith, send-locks s.cluster calm m keeps names db u)

  put_target-locks :
      (target : String) (osimage subnet : Option String) (names : List String)
      (result : Dict String) (db : Db)
      → UniqueNames db.nodes
      → locks (put_target s target osimage subnet names result db).1.nodes ≡ locks db.nodes
  unfolding put_target
  put_target-locks target osimage subnet names result db u =
      elim (Result-cases (arguments osimage subnet db)) [
        | inl (found, h) ↦ ground (arith, h, deploy-locks target found names result db u)
        | inr (e, h) ↦ ground (arith, h)
      ]

  put_clean-locks :
      (subnet : Option String) (names : List String) (result : Dict String) (db : Db)
      → UniqueNames db.nodes
      → locks (put_clean s subnet names result db).1.nodes ≡ locks db.nodes
  unfolding put_clean
  put_clean-locks subnet names result db u =
      ground (arith, send_clean-locks s.cluster calm result names db u)

  -- A provision request, to deploy or to clean, sent to any number of conductors whose calls run
  -- one after the other, leaves the locks of all nodes as they were, however its plugins, the
  -- executor and the network service end, if every transaction whose body returns commits, on
  -- every conductor nobody else uses the waits for a lock, at least one attempt is configured, the
  -- retry decorator and the rollback behave as documented, and node names are unique.
  pub put-locks :
      (target : String) (osimage subnet : Option String) (names : List String) (db : Db)
      → UniqueNames db.nodes
      → locks (put s target osimage subnet names db).1.nodes ≡ locks db.nodes
  unfolding put
  put-locks target osimage subnet names db u =
      let (result, available) = filter_unavailable_nodes names false db in
      ground (
        arith,
        put_target-locks target osimage subnet available result db u,
        put_clean-locks subnet available result db u,
      )
