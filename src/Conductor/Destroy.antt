-- ===== src/Conductor/Destroy.antt =====
-- ConductorManager.destroy_nodes of xcat3/conductor/manager.py.
use xcat.Prelude.{
  ℕ, ◌≡◌, Bool, true, false, not, String, none, List, [], arith, map, Dict, lookup, write_all,
  if◌then◌else◌, is_text, contains, contains_id, is_empty, select, find_where,
}
use xcat.Db.{Node, Db, ok, Action, pure, ◌>>◌, Engine}
use xcat.Db.Nodes
use xcat.Db.Nodes.{has_id, id_in}
use xcat.Db.Dhcp.{destroy_dhcp}
use xcat.Db.Dhcp.Laws.{lookup-destroy_dhcp, destroy_dhcp_ok, nodes-destroy_dhcp}
use xcat.Db.Nodes.Destroy.{find-destroy_nodes, dhcp-destroy_nodes}
use xcat.Task.{with_task}
use xcat.Conductor.{Conductor, deploy_nodeset, deleted}

abbrev pub is_deploying : Node → Bool
is_deploying r = is_text r.state deploy_nodeset

abbrev pub refusal : String
refusal = "Can not delete node in deploying state"

abbrev pub note : String → List Node → List (String × String)
note message = map (λ (r : Node). (r.name, message))

abbrev pub deletable : List Node → List Node
deletable = select (λ r. not (is_deploying r))

abbrev pub ids : List Node → List ℕ
ids = map (λ (r : Node). r.id)

-- The body of the task of destroy_nodes.
unfoldable pub destroy_body : Engine → List String → List Node → Action (Dict String)
destroy_body engine names rows =
    let refused = write_all (note refusal (select is_deploying rows)) [] in
    if is_empty (deletable rows) then pure refused else (do
      destroy_dhcp engine names
      Nodes.destroy_nodes engine (ids (deletable rows))
      pure (write_all (note deleted (deletable rows)) refused))

-- ConductorManager.destroy_nodes
pub destroy_nodes : Conductor → List String → Action (Dict String)
unfolding destroy_body
destroy_nodes c names = with_task c.env names false (destroy_body c.env.engine names)

-- Where every node is being deployed, nothing is changed.
destroy_body-all_deploying :
    (engine : Engine) (names : List String) (rows : List Node) (db : Db)
    → is_empty (deletable rows) ≡ true
    → (destroy_body engine names rows db).1 ≡ db
unfolding destroy_body
destroy_body-all_deploying engine names rows db h = ground arith

module _ (engine : Engine) (names : List String) (rows : List Node) (db : Db) where
  abbrev after_dhcp : Db
  after_dhcp = (destroy_dhcp engine names db).1

  -- A body that returns with something to delete has made both calls.
  destroy_body-calls :
      (result : Dict String)
      → is_empty (deletable rows) ≡ false
      → (destroy_body engine names rows db).0 ≡ ok result
      → ((Nodes.destroy_nodes engine (ids (deletable rows)) after_dhcp).0 ≡ ok tt)
        × ((destroy_body engine names rows db).1
            ≡ (Nodes.destroy_nodes engine (ids (deletable rows)) after_dhcp).1)
        × (result
            ≡ write_all
                (note deleted (deletable rows))
                (write_all (note refusal (select is_deploying rows)) []))
  unfolding destroy_body
  destroy_body-calls result some_row h = ground (arith, destroy_dhcp_ok engine names db)

  -- If some node of the task is not being deployed and the body of destroy_nodes returns, the
  -- nodes of the task that are not being deployed are gone and every other id is found as before.
  pub destroy_body-deletes :
      (result : Dict String) (i : ℕ)
      → is_empty (deletable rows) ≡ false
      → (destroy_body engine names rows db).0 ≡ ok result
      → find_where (has_id i) (destroy_body engine names rows db).1.nodes
        ≡ (if contains_id (ids (deletable rows)) i then none else find_where (has_id i) db.nodes)
  destroy_body-deletes result i some_row h =
      let (returns, after, _) = destroy_body-calls result some_row h in
      rw (
        after,
        find-destroy_nodes engine (ids (deletable rows)) after_dhcp i returns,
        nodes-destroy_dhcp engine names db,
      )

  -- If some node of the task is not being deployed and the body of destroy_nodes returns, the DHCP
  -- record of every requested name is gone, also that of a node which is being deployed and stays,
  -- and every other name has the record that it had.
  pub destroy_body-drops_dhcp :
      (result : Dict String) (n : String)
      → is_empty (deletable rows) ≡ false
      → (destroy_body engine names rows db).0 ≡ ok result
      → lookup n (destroy_body engine names rows db).1.dhcp
        ≡ (if contains names n then none else lookup n db.dhcp)
  destroy_body-drops_dhcp result n some_row h =
      let (returns, after, _) = destroy_body-calls result some_row h in
      rw (after, dhcp-destroy_nodes engine (ids (deletable rows)) after_dhcp returns)
        (lookup-destroy_dhcp engine names n db)
