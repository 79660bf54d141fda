-- ===== src/Db/Nics/Cards.antt =====
-- The cards of many nodes: the one query of xcat3/objects/nic.py against a query for each node.
use xcat.Prelude.{
  inl, inr, Bool-cases, Option-cases, ap, sym, ◌∙◌, ℕ, ◌≡◌, refl, Bool, true, false, List, [], ◌∷◌,
  ◌++◌, map, arith, if◌then◌else◌, eqb, contains_id, select,
}
use mathlib.Core.List.{append_assoc, append-nil}
use xcat.Db.{Node, Nic, Db}
use xcat.Db.Nics.{on_node, gather, cards_of, get_nics_by_node_id, get_nics_in_node_ids, with_nics}

abbrev Gathered : Type 0
Gathered = List (ℕ × List Nic)

abbrev in_dict : Gathered → ℕ → Bool
in_dict [] i = false
in_dict ((j, cards) ∷ dict) i = let rest = in_dict dict i in if eqb j i then true else rest

abbrev is_on : ℕ → Nic → Bool
is_on i = on_node (λ j. eqb j i)

-- One card appended to the list of its node.
abbrev append_card : Nic → Gathered → Gathered
append_card c dict =
    map (λ (p : ℕ × List Nic). (p.0, if is_on p.0 c then p.1 ++ c ∷ [] else p.1)) dict

in_dict-append_card :
    (c : Nic) (dict : Gathered) (i : ℕ) → in_dict (append_card c dict) i ≡ in_dict dict i
in_dict-append_card c [] i = refl
in_dict-append_card c ((j, cards) ∷ dict) i = ground (arith, in_dict-append_card c dict i)

cards_of-append_card :
    (c : Nic) (dict : Gathered) (i : ℕ)
    → in_dict dict i ≡ true
    → cards_of (append_card c dict) i
      ≡ (if is_on i c then cards_of dict i ++ c ∷ [] else cards_of dict i)
cards_of-append_card c [] i h = cc
cards_of-append_card c ((j, cards) ∷ dict) i h = elim (Bool-cases (eqb j i)) [
  | inl here ↦ let e : j ≡ i = ground (arith, here) in rw (e, rw e at here) refl
  | inr later ↦ ground (arith, later, cards_of-append_card c dict i)
]

-- A node of the dictionary has its cards after those that it had.
cards_of-gather :
    (cards : List Nic) (dict : Gathered) (i : ℕ)
    → in_dict dict i ≡ true
    → cards_of (gather cards dict) i ≡ cards_of dict i ++ select (is_on i) cards
unfolding gather
cards_of-gather [] dict i h = sym (append-nil (cards_of dict i))
cards_of-gather (c ∷ cards) dict i h =
    let next = cards_of-gather cards (append_card c dict) i (in_dict-append_card c dict i ∙ h) in
    let first = cards_of-append_card c dict i h in
    next ∙ elim (Bool-cases (is_on i c)) [
      | inl mine ↦
          rw (first, mine) (append_assoc (cards_of dict i) (c ∷ []) (select (is_on i) cards))
      | inr strange ↦ rw (first, strange) refl
    ]

-- The dictionary that the loop starts from.
abbrev empty_lists : List ℕ → Gathered
empty_lists = map (λ (i : ℕ). (i, []))

cards_of-empty_lists : (ids : List ℕ) (i : ℕ) → cards_of (empty_lists ids) i ≡ []
cards_of-empty_lists [] i = refl
cards_of-empty_lists (j ∷ ids) i = ground (arith, cards_of-empty_lists ids i)

in_dict-empty_lists :
    (ids : List ℕ) (i : ℕ) → contains_id ids i ≡ true → in_dict (empty_lists ids) i ≡ true
in_dict-empty_lists [] i h = cc
in_dict-empty_lists (j ∷ ids) i h = ground (arith, in_dict-empty_lists ids i)

is_on_asked :
    (ids : List ℕ) (i : ℕ) (c : Nic)
    → contains_id ids i ≡ true
    → is_on i c ≡ true
    → on_node (contains_id ids) c ≡ true
is_on_asked ids i c h on = elim (Option-cases c.node_id) [
  | inl nowhere ↦ ground (arith, nowhere, on)
  | inr (j, there) ↦ let e : j ≡ i = ground (arith, there, on) in rw (there, e) h
]

select-is_on :
    (ids : List ℕ) (i : ℕ) (cards : List Nic)
    → contains_id ids i ≡ true
    → select (is_on i) (select (on_node (contains_id ids)) cards) ≡ select (is_on i) cards
select-is_on ids i [] h = refl
select-is_on ids i (c ∷ cards) h = ground (arith, is_on_asked ids i c h, select-is_on ids i cards h)

-- The node's own list, as with_nics computes it.
gathered :
    (ids : List ℕ) (i : ℕ) (db : Db)
    → contains_id ids i ≡ true
    → cards_of (gather (get_nics_in_node_ids ids db) (empty_lists ids)) i ≡ get_nics_by_node_id i db
unfolding get_nics_in_node_ids get_nics_by_node_id
gathered ids i db h =
    cards_of-gather (get_nics_in_node_ids ids db) (empty_lists ids) i (in_dict-empty_lists ids i h)
    ∙ ap (λ l. l ++ select (is_on i) (get_nics_in_node_ids ids db)) (cards_of-empty_lists ids i)
    ∙ select-is_on ids i db.nics h

abbrev ids_of : List Node → List ℕ
ids_of = map (λ (r : Node). r.id)

-- Every node of a sublist of those asked for gets what its own query would give.
map-gathered :
    (all nodes : List Node) (db : Db)
    → ((i : ℕ) → contains_id (ids_of nodes) i ≡ true → contains_id (ids_of all) i ≡ true)
    → map {B = Node × List Nic}
        (λ r. (
          r,
          cards_of (gather (get_nics_in_node_ids (ids_of all) db) (empty_lists (ids_of all))) r.id,
        ))
        nodes
      ≡ map {B = Node × List Nic} (λ r. (r, get_nics_by_node_id r.id db)) nodes
map-gathered all [] db h = refl
map-gathered all (r ∷ nodes) db h =
    let rest = map-gathered all nodes db (λ i k. h i (ground (arith, k))) in
    let first = gathered (ids_of all) r.id db (h r.id (ground arith)) in cc

-- to_node_objs_with_nics_info, which gathers the cards of all nodes in one query, gives each node
-- exactly the cards, in table order, that a query for that node alone would give.
pub with_nics-separate :
    (nodes : List Node) (db : Db)
    → with_nics nodes db ≡ map {B = Node × List Nic} (λ r. (r, get_nics_by_node_id r.id db)) nodes
unfolding with_nics
with_nics-separate nodes db = map-gathered nodes nodes db (λ i h. h)
