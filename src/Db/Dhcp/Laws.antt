-- ===== src/Db/Dhcp/Laws.antt =====
-- save_or_update_dhcp and destroy_dhcp of xcat3/db/sqlalchemy/api.py: the tables after them.
use xcat.Prelude.{
  ◌≡◌, refl, not, String, eq_iff, none, List, [], ◌∷◌, arith, Dict, lookup, if◌then◌else◌, contains,
  write_all, select,
}
use xcat.Db.{
  Db, Result, ok, err, Action, ◌>>◌, Engine, RollsBack, session_for_write, session_for_write-nodes,
}
use xcat.Db.Dhcp.{Opts, update_rows, new_opts, set_dhcp, save_or_update_dhcp, destroy_dhcp}

lookup-remove :
    (names : List String) (n : String) (d : Dict Opts)
    → lookup n (select (λ p. not (contains names p.0)) d)
      ≡ (if contains names n then none else lookup n d)
lookup-remove names n [] = ground arith
lookup-remove names n ((m, o) ∷ d) = ground (arith, eq_iff m n, lookup-remove names n d)

-- After destroy_dhcp the given names have no record, and every other name has the record that it
-- had.
pub lookup-destroy_dhcp :
    (engine : Engine) (names : List String) (n : String) (db : Db)
    → lookup n (destroy_dhcp engine names db).1.dhcp
      ≡ (if contains names n then none else lookup n db.dhcp)
unfolding destroy_dhcp
lookup-destroy_dhcp engine names n db = lookup-remove names n db.dhcp

pub destroy_dhcp_ok :
    (engine : Engine) (names : List String) (db : Db) → (destroy_dhcp engine names db).0 ≡ ok tt
unfolding destroy_dhcp
destroy_dhcp_ok engine names db = refl

pub nodes-destroy_dhcp :
    (engine : Engine) (names : List String) (db : Db)
    → (destroy_dhcp engine names db).1.nodes ≡ db.nodes
unfolding destroy_dhcp
nodes-destroy_dhcp engine names db = refl

set_dhcp-nodes : (r : Result (Dict Opts)) (db : Db) → (set_dhcp r db).1.nodes ≡ db.nodes
set_dhcp-nodes (ok rows) db = refl
set_dhcp-nodes (err e) db = refl

>>-nodes :
    (m k : Action (Unit {0})) (db : Db)
    → (m db).1.nodes ≡ db.nodes
    → (k (m db).1).1.nodes ≡ (m db).1.nodes
    → ((m >> k) db).1.nodes ≡ db.nodes
>>-nodes m k db h l = ground arith

-- A write of DHCP records leaves the nodes alone, also where it raises.
pub nodes-save_or_update_dhcp :
    (engine : Engine) (names : List String) (opts : Dict Opts) (db : Db)
    → RollsBack engine
    → (save_or_update_dhcp engine names opts db).1.nodes ≡ db.nodes
unfolding save_or_update_dhcp
nodes-save_or_update_dhcp engine names opts db rb =
    let fresh = new_opts names db.dhcp opts in
    let first : Action (Unit {0}) = λ now. set_dhcp (update_rows names opts now.dhcp) now in
    let second : Action (Unit {0}) = λ now. set_dhcp (ok (write_all fresh now.dhcp)) now in
    >>-nodes (session_for_write engine first) (session_for_write engine second) db
      (session_for_write-nodes engine first db rb
        (set_dhcp-nodes (update_rows names opts db.dhcp) db))
      (session_for_write-nodes engine second (session_for_write engine first db).1 rb refl)
