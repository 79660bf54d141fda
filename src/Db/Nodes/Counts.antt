-- ===== src/Db/Nodes/Counts.antt =====
-- Counting the rows of the node table by name: what a lock on all the names of a request needs.
use xcat.Prelude.{
  not, eq_refl, count_where-disjoint, inl, inr, Bool-cases, ◌+◌, ◌≤◌, ◌≡◌, Bool, true, ◌&&◌, String,
  eq_iff, none, some, List, [], ◌∷◌, arith, contains, length, count_where, find_where,
  count_where-cover, count_where_mono,
}
use xcat.Db.{Node, named_in}
use xcat.Db.Nodes.{is_free, has_name}

-- schema.UniqueConstraint('name', name='uniq_nodes0name')
abbrev pub UniqueNames : List Node → Type 0
UniqueNames rows = (n : String) → count_where (has_name n) rows ≤ 1

abbrev pub free_in : List String → Node → Bool
free_in names r = named_in names r && is_free r

abbrev pub free_as : String → Node → Bool
free_as n r = has_name n r && is_free r

count-free_in-cons :
    (n : String) (names : List String) (rows : List Node)
    → count_where (free_in (n ∷ names)) rows
      ≤ count_where (free_as n) rows + count_where (free_in names) rows
count-free_in-cons n names rows =
    count_where-cover (free_in (n ∷ names)) (free_as n) (free_in names) rows (λ r h. ground arith)

count-free_in-nil : (rows : List Node) → count_where (free_in []) rows ≤ 0
count-free_in-nil [] = omega arith
count-free_in-nil (r ∷ rows) = omega (arith, count-free_in-nil rows)

pub count-free_as-le :
    (n : String) (rows : List Node) → UniqueNames rows → count_where (free_as n) rows ≤ 1
count-free_as-le n rows u =
    omega (arith, u n, count_where_mono (free_as n) (has_name n) rows (λ r h. ground arith))

-- No request matches more free rows than it has names.
pub count-free_in-le :
    (names : List String) (rows : List Node)
    → UniqueNames rows
    → count_where (free_in names) rows ≤ length names
count-free_in-le [] rows u = count-free_in-nil rows
count-free_in-le (n ∷ names) rows u = omega (
  arith,
  count-free_in-cons n names rows,
  count-free_as-le n rows u,
  count-free_in-le names rows u,
)

-- If it matches as many, each of its names is the name of a free row.
pub free_in-each :
    (names : List String) (rows : List Node) (n : String)
    → UniqueNames rows
    → length names ≤ count_where (free_in names) rows
    → contains names n ≡ true
    → 1 ≤ count_where (free_as n) rows
free_in-each [] rows n u full h = cc
free_in-each (m ∷ names) rows n u full h = ground (
  arith,
  eq_iff n m,
  count-free_in-cons m names rows,
  count-free_as-le m rows u,
  count-free_in-le names rows u,
  free_in-each names rows n u,
)

-- A free row of that name is the row that a query by name finds.
pub find-free_as :
    (n : String) (rows : List Node)
    → count_where (has_name n) rows ≤ 1
    → 1 ≤ count_where (free_as n) rows
    → (r : Node) × (find_where (has_name n) rows ≡ some r) × (r.reservation ≡ none)
find-free_as n [] u h = absurd (omega arith)
find-free_as n (r ∷ rows) u h = elim (Bool-cases (has_name n r)) [
  | inl here ↦ (
    r,
    rw here,
    ground (arith, count_where_mono (free_as n) (has_name n) rows (λ r h. ground arith)),
  )
  | inr there ↦ rw there (find-free_as n rows (ground arith) (ground arith))
]

abbrev pub taken_in : List String → Node → Bool
taken_in names r = named_in names r && not (is_free r)

count-named_in-le :
    (names : List String) (rows : List Node)
    → UniqueNames rows
    → count_where (named_in names) rows ≤ length names
count-named_in-le [] [] u = omega arith
count-named_in-le [] (r ∷ rows) u = omega (
  arith,
  count_where_mono (named_in []) (free_in []) (r ∷ rows) (λ r h. cc),
  count-free_in-nil (r ∷ rows),
)
count-named_in-le (n ∷ names) rows u = omega (
  arith,
  count_where-cover (named_in (n ∷ names)) (has_name n) (named_in names) rows (λ r h. ground arith),
  u n,
  count-named_in-le names rows u,
)

-- If it matches as many, no row of that name is taken.
pub count-taken_in :
    (names : List String) (rows : List Node)
    → UniqueNames rows
    → length names ≤ count_where (free_in names) rows
    → count_where (taken_in names) rows ≡ 0
count-taken_in names rows u full = omega (
  arith,
  count_where-disjoint (named_in names) (free_in names) (taken_in names) rows (λ r h. ground arith)
      (λ r h. ground arith),
  count-named_in-le names rows u,
)

-- A list of texts that names nothing twice.
abbrev pub distinct : List String → Bool
distinct [] = true
distinct (n ∷ names) = not (contains names n) && distinct names

-- If the names differ and each is the name of a free row, as many rows are free as names are given.
pub length-le-count-free_in :
    (names : List String) (rows : List Node)
    → distinct names ≡ true
    → ((n : String) → contains names n ≡ true → 1 ≤ count_where (free_as n) rows)
    → length names ≤ count_where (free_in names) rows
length-le-count-free_in [] rows d h = omega arith
length-le-count-free_in (n ∷ names) rows d h = ground (
  arith,
  eq_refl n,
  h n,
  length-le-count-free_in names rows (ground arith) (λ m k. h m (ground arith)),
  count_where-disjoint (free_in (n ∷ names)) (free_as n) (free_in names) rows
      (λ r k. ground (arith, eq_iff r.name n)) (λ r k. ground arith),
)

pub free_as-of-find :
    (n : String) (rows : List Node) (r : Node)
    → find_where (has_name n) rows ≡ some r
    → r.reservation ≡ none
    → 1 ≤ count_where (free_as n) rows
free_as-of-find n [] r h k = cc
free_as-of-find n (s ∷ rows) r h k = ground (arith, free_as-of-find n rows r)
