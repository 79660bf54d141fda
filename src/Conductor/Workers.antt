-- ===== src/Conductor/Workers.antt =====
-- The replies of ConductorManager._process_nodes_worker in xcat3/conductor/manager.py, and
-- fill_result of xcat3/common/utils.py.
use mathlib.Core.Option
use xcat.Prelude.{
  inl, inr, Bool-cases, ◌≤◌, ◌≡◌, refl, Bool, not, ◌&&◌, String, eq_iff, Option, none, some, List,
  [], ◌∷◌, arith, Dict, lookup, insert, lookup-insert, write_all, if◌then◌else◌, contains,
  count_where, find_where, find_where-none, find_where-absent,
}
use xcat.Db.{Node, ok}
use xcat.Db.Nodes.{has_name}
use xcat.Db.Nodes.Counts.{UniqueNames}
use xcat.Conductor.{Conductor, Finish, is_done, reply, replies, process_nodes_worker, fill_result}

abbrev pub or_else {ℓ} : {A : Type ℓ} → Option A → Option A → Option A
or_else none o = o
or_else (some a) o = some a

abbrev pub named_and : String → (Node → Bool) → Node → Bool
named_and n p r = has_name n r && p r

module _ (c : Conductor) (finish : Node → Finish) (n : String) where
  abbrev answer : Option Node → Option String
  answer = Option.map (λ r. reply c (finish r))

  lookup-replies :
      (p : Node → Bool) (rows : List Node) (d : Dict String)
      → count_where (has_name n) rows ≤ 1
      → lookup n (write_all (replies c finish p rows) d)
        ≡ or_else (answer (find_where (named_and n p) rows)) (lookup n d)
  lookup-replies p [] d u = refl
  lookup-replies p (r ∷ rows) d u =
      let v = reply c (finish r) in
      elim (Bool-cases (p r)) [
        | inl chosen ↦ ground (
          arith,
          lookup-replies p rows (insert r.name v d),
          lookup-insert r.name n v d,
          find_where-none (has_name n) p rows,
        )
        | inr passed ↦ ground (arith, lookup-replies p rows d)
      ]

  find-parts :
      (p : Node → Bool) (rows : List Node)
      → count_where (has_name n) rows ≤ 1
      → or_else
          (answer (find_where (named_and n (λ r. not (p r))) rows))
          (or_else (answer (find_where (named_and n p) rows)) none)
        ≡ answer (find_where (has_name n) rows)
  find-parts p [] u = refl
  find-parts p (r ∷ rows) u = ground (
    arith,
    find-parts p rows,
    find_where-none (has_name n) p rows,
    find_where-none (has_name n) (λ r. not (p r)) rows,
    find_where-absent (has_name n) rows,
  )

module _ (c : Conductor) (finish : Node → Finish) where
  -- If no call is rejected and node names are unique, the reply under a name is the one that the
  -- end of the thread of the node with that name gives, and there is none for a name of no node.
  pub lookup-process_nodes_worker :
      (rows : List Node) (n : String) (result : Dict String)
      → UniqueNames rows
      → process_nodes_worker c finish rows ≡ ok result
      → lookup n result ≡ Option.map (λ r. reply c (finish r)) (find_where (has_name n) rows)
  unfolding process_nodes_worker
  lookup-process_nodes_worker rows n result u h = ground (
    arith,
    lookup-replies c finish n (λ r. not (is_done (finish r))) rows
        (write_all (replies c finish (λ r. is_done (finish r)) rows) []) (u n),
    lookup-replies c finish n (λ r. is_done (finish r)) rows [] (u n),
    find-parts c finish n (λ r. is_done (finish r)) rows (u n),
  )

-- fill_result sets the reply of each of its names to the message, whether there was a reply or
-- not, and leaves the reply of every other name.
pub lookup-fill_result :
    (result : Dict String) (names : List String) (message n : String)
    → lookup n (fill_result result names message)
      ≡ (if contains names n then some message else lookup n result)
unfolding fill_result
lookup-fill_result result [] message n = refl
lookup-fill_result result (m ∷ names) message n = ground (
  arith,
  eq_iff n m,
  eq_iff m n,
  lookup-fill_result (insert m message result) names message n,
  lookup-insert m n message result,
)
