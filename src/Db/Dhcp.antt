-- ===== src/Db/Dhcp.antt =====
-- DHCP records: class Connection of xcat3/db/sqlalchemy/api.py. The table is a dictionary by its
-- primary key, the node name.
pub mod Laws
use xcat.Prelude.{
  ℕ, ◌≡◌, Bool, true, false, not, ◌&&◌, String, Option, none, some, List, [], ◌∷◌, Dict, lookup,
  insert, if◌then◌else◌, is_none, contains, write_all, select,
}
use xcat.Db.{Db, Error, key_error, Result, ok, err, Action, ◌>>=◌, ◌>>◌, Engine, session_for_write}

abbrev pub Opts : Type 0
Opts = Dict String

-- The rows whose name is asked for take `dhcp_opts[name]`, which raises where there is none.
unfoldable pub update_rows : List String → Dict Opts → Dict Opts → Result (Dict Opts)
update_rows names dhcp_opts [] = ok []
update_rows names dhcp_opts ((n, old) ∷ rows) =
    let rest = update_rows names dhcp_opts rows in
    elim rest [
      | err e ↦ err e
      | ok rows' ↦
          if contains names n
          then (elim (lookup n dhcp_opts) [
            | none ↦ err key_error
            | some new ↦ ok ((n, new) ∷ rows')
          ])
          else ok ((n, old) ∷ rows')
    ]

-- What is left of `dhcp_opts` when the names of those rows are popped.
abbrev pub new_opts : List String → Dict Opts → Dict Opts → Dict Opts
new_opts names table = select (λ p. not (contains names p.0 && not (is_none (lookup p.0 table))))

abbrev pub set_dhcp : Result (Dict Opts) → Action (Unit {0})
set_dhcp (err e) db = (err e, db)
set_dhcp (ok rows) db = (ok tt, record db { dhcp = rows })

-- Connection.save_or_update_dhcp: two transactions, the updates and the inserts.
unfoldable pub save_or_update_dhcp : Engine → List String → Dict Opts → Action (Unit {0})
unfolding session_for_write update_rows
save_or_update_dhcp engine names dhcp_opts db =
    let fresh = new_opts names db.dhcp dhcp_opts in
    (session_for_write engine (λ now. set_dhcp (update_rows names dhcp_opts now.dhcp) now)
        >> session_for_write engine (λ now. set_dhcp (ok (write_all fresh now.dhcp)) now))
      db

-- Connection.destroy_dhcp
unfoldable pub destroy_dhcp : Engine → List String → Action (Unit {0})
unfolding session_for_write
destroy_dhcp engine names =
    session_for_write engine λ db. set_dhcp (ok (select (λ p. not (contains names p.0)) db.dhcp)) db
