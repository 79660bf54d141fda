-- ===== src/Tests/Keys.antt =====
-- The tables of networks and cards of the installation, under calls.
use xcat.Prelude.{
  inl, inr, Bool-cases, ◌≡◌, refl, eqb, String, ◌==◌, List, [], ◌∷◌, map, arith, find_where,
}
use xcat.Db.{Node, Nic, Network}
use xcat.Db.Nics.{with_nics, get_nics_by_node_id}
use xcat.Db.Nics.Cards.{with_nics-separate}
use xcat.Db.Tables.{IsTable, networks, has_key}
use xcat.Db.Tables.Keys.{IsKeyed}
use xcat.Db.Tables.Names.{execute_all, required_all, Map, Command, make, drop, save, Shows}
use xcat.Db.Tables.Refinement.{execute_all-Refines}
use xcat.Tests.{rolling_back, rolling_back_lem, tables, lan, idle, deploying}

networks-IsTable : IsTable networks
networks-IsTable = record { plain = refl; rows-store = λ rows db. refl }

abbrev wan : Network
wan = record lan { id = 2; name = "wan" }

abbrev renamed : String → Network → Network
renamed name r = record r { name = name }

tables-IsKeyed : IsKeyed networks tables
tables-IsKeyed = record {
  ids = λ i. elim (Bool-cases (eqb 1 i)) [
    | inl same ↦ rw same (omega arith)
    | inr differs ↦ rw differs (omega arith)
  ];
  keys = λ k. elim (Bool-cases ("lan" == k)) [
    | inl same ↦ rw same (omega arith)
    | inr differs ↦ rw differs (omega arith)
  ];
}

abbrev shown : Map Network
shown k = find_where (has_key networks k) tables.networks

tables-Shows : Shows networks shown tables
tables-Shows = record { keyed = tables-IsKeyed; view = λ k. refl }

abbrev calls : List (Command Network)
calls = make wan ∷ save "lan" (renamed "wan") ∷ drop "wan" ∷ []

execute_all-Refines_example :
    ((execute_all networks rolling_back calls tables).0 ≡ (required_all networks calls shown).0)
    × Shows networks
        (required_all networks calls shown).1
        (execute_all networks rolling_back calls tables).1
execute_all-Refines_example =
    execute_all-Refines networks networks-IsTable rolling_back rolling_back_lem calls shown tables
      tables-Shows (refl, ((λ r. refl), (tt, tt)))

with_nics-separate_example :
    with_nics (idle ∷ deploying ∷ []) tables
    ≡ map {B = Node × List Nic} (λ r. (r, get_nics_by_node_id r.id tables)) (idle ∷ deploying ∷ [])
with_nics-separate_example = with_nics-separate (idle ∷ deploying ∷ []) tables
