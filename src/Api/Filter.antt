-- ===== src/Api/Filter.antt =====
-- _filter_unavailable_nodes of xcat3/api/controllers/v1/node.py: the names that go on, and what is
-- told of the others.
use xcat.Prelude.{
  inl, inr, Bool-cases, ap, ◌≤◌, ◌≡◌, refl, Bool, true, false, not, ◌&&◌, String, ◌==◌, eq_iff,
  none, some, List, [], ◌∷◌, map, arith, Dict, lookup, insert, lookup-insert, write_all,
  if◌then◌else◌, contains, select, count_where, find_where, find_where-absent,
}
use xcat.Db.{Node, Db, named_in}
use xcat.Db.Nodes.{is_free, has_name, get_node_in}
use xcat.Db.Nodes.Counts.{UniqueNames}
use xcat.Api.{not_found_text, locked_text, names_in, tell, without, filter_unavailable_nodes}

lookup-tell :
    (message n : String) (names : List String) (d : Dict String)
    → lookup n (write_all (tell message names) d)
      ≡ (if contains names n then some message else lookup n d)
lookup-tell message n [] d = refl
lookup-tell message n (m ∷ names) d = ground (
  arith,
  eq_iff n m,
  eq_iff m n,
  lookup-tell message n names (insert m message d),
  lookup-insert m n message d,
)

contains-without :
    (gone names : List String) (n : String)
    → contains (without gone names) n ≡ (contains names n && not (contains gone n))
contains-without gone [] n = refl
contains-without gone (m ∷ names) n = elim (Bool-cases (n == m)) [
  | inl same ↦
      let e : n ≡ m = (eq_iff n m).0 same in
      ground (arith, same, ap (contains gone) e, contains-without gone names n)
  | inr other ↦ ground (arith, other, contains-without gone names n)
]

-- The row of a requested name that meets a test.
abbrev pub chosen : List String → (Node → Bool) → String → List Node → Bool
chosen names p n rows =
    contains names n && (elim (find_where (has_name n) rows) [ none ↦ false | some r ↦ p r ])

contains-selected :
    (names : List String) (p : Node → Bool) (n : String) (rows : List Node)
    → count_where (has_name n) rows ≤ 1
    → contains (map (λ (r : Node). r.name) (select (λ r. named_in names r && p r) rows)) n
      ≡ chosen names p n rows
contains-selected names p n [] u = ground arith
contains-selected names p n (r ∷ rows) u = elim (Bool-cases (r.name == n)) [
  | inl same ↦
      let e : r.name ≡ n = (eq_iff r.name n).0 same in
      ground (
        arith,
        same,
        e,
        eq_iff n r.name,
        ap (contains names) e,
        contains-selected names p n rows,
        find_where-absent (has_name n) rows,
      )
  | inr other ↦
      ground (arith, other, eq_iff n r.name, eq_iff r.name n, contains-selected names p n rows)
]

contains-named :
    (names : List String) (n : String) (rows : List Node)
    → contains (map (λ (r : Node). r.name) (select (named_in names) rows)) n
      ≡ chosen names (λ r. true) n rows
contains-named names n [] = ground arith
contains-named names n (r ∷ rows) = elim (Bool-cases (r.name == n)) [
  | inl same ↦
      let e : r.name ≡ n = (eq_iff r.name n).0 same in
      ground (arith, same, e, eq_iff n r.name, ap (contains names) e, contains-named names n rows)
  | inr other ↦ ground (arith, other, eq_iff n r.name, eq_iff r.name n, contains-named names n rows)
]

module _ (names : List String) (n : String) (db : Db) (u : UniqueNames db.nodes) where
  contains-names_in : contains (names_in names [] db) n ≡ chosen names (λ r. true) n db.nodes
  unfolding get_node_in
  contains-names_in = contains-named names n db.nodes

  contains-names_in_locked :
      contains (names_in names ("not_reservation" ∷ []) db) n
      ≡ chosen names (λ r. not (is_free r)) n db.nodes
  unfolding get_node_in
  contains-names_in_locked = contains-selected names (λ r. not (is_free r)) n db.nodes (u n)

  -- The names that _filter_unavailable_nodes goes on with, for a request that takes locks, are the
  -- requested names whose node is in the table and not locked, if node names are unique.
  pub contains-filter_unavailable_nodes :
      contains (filter_unavailable_nodes names false db).1 n ≡ chosen names is_free n db.nodes
  unfolding filter_unavailable_nodes
  contains-filter_unavailable_nodes = ground (
    arith,
    contains-without (names_in names ("not_reservation" ∷ []) db) (names_in names [] db) n,
    contains-names_in,
    contains-names_in_locked,
  )

  -- For a request that takes locks, _filter_unavailable_nodes tells of each requested name that it
  -- could not be found where no node has it, that it is locked where its node is, and nothing
  -- where its node is free, and tells nothing of any other name, if node names are unique.
  pub lookup-filter_unavailable_nodes : lookup n (filter_unavailable_nodes names false db).0 ≡ (
      if contains names n
      then (elim (find_where (has_name n) db.nodes) [
        | none ↦ some not_found_text
        | some r ↦ if is_free r then none else some locked_text
      ])
      else none)
  unfolding filter_unavailable_nodes
  lookup-filter_unavailable_nodes =
      let exist = names_in names [] db in
      let result = write_all (tell not_found_text (without exist names)) [] in
      ground (
        arith,
        lookup-tell locked_text n (names_in names ("not_reservation" ∷ []) db) result,
        lookup-tell not_found_text n (without exist names) [],
        contains-without exist names n,
        contains-names_in,
        contains-names_in_locked,
      )
