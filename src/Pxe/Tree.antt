-- ===== src/Pxe/Tree.antt =====
-- Files by their paths: write_to_file, create_link_without_raise, unlink_without_raise and
-- rmtree_without_raise of xcat3/common/utils.py. Directories are there where they are needed.
use xcat.Prelude.{
  ℕ, zero, suc, ◌≡◌, refl, ap, Bool, true, false, not, ◌&&◌, ◌||◌, String, ◌==◌, eq_iff, eq_refl,
  Option, none, some, List, [], ◌∷◌, ◌++◌, arith, if◌then◌else◌, is_none, inl, inr, Bool-cases,
}

-- A path by its parts
abbrev pub FilePath : Type 0
FilePath = List String

-- A file with its content, or a link to another path, or to one that starts at the link's directory
pub data Entry : Type 0 where
  file : String → Entry
  link relative_link : List String → Entry

-- What the system refuses, which the operations below only log: links that it does not make, and
-- entries that unlink and rmtree leave, since their removal fails or comes after one that fails.
pub record System : Type 0 where
  pub refuses : FilePath → Bool
  pub keeps : FilePath → Bool

abbrev pub Files : Type 0
Files = List (List String × Entry)

abbrev pub same_path : List String → List String → Bool
same_path [] [] = true
same_path [] (b ∷ q) = false
same_path (a ∷ p) [] = false
same_path (a ∷ p) (b ∷ q) = a == b && same_path p q

-- A path is a directory, or lies below it.
abbrev pub is_under : List String → List String → Bool
is_under [] q = true
is_under (a ∷ p) [] = false
is_under (a ∷ p) (b ∷ q) = a == b && is_under p q

unfoldable pub read : List String → Files → Option Entry
read q [] = none
read q ((p, e) ∷ files) = let rest = read q files in if same_path p q then some e else rest

unfoldable pub remove_where : (List String → Bool) → Files → Files
remove_where gone [] = []
remove_where gone ((p, e) ∷ files) =
    let rest = remove_where gone files in if gone p then rest else (p, e) ∷ rest

-- utils.write_to_file, of a path that is no link
unfoldable pub write_to_file : List String → String → Files → Files
write_to_file p contents files = (p, file contents) ∷ remove_where (same_path p) files

-- utils.create_link_without_raise, of a link: a path that is there stays as it is.
unfoldable pub create_link : System → Entry → List String → Files → Files
create_link system source p files =
    if is_none (read p files) && not (system.refuses p) then (p, source) ∷ files else files

-- utils.unlink_without_raise
unfoldable pub unlink : System → List String → Files → Files
unlink system p = remove_where (λ q. same_path p q && not (system.keeps q))

-- utils.rmtree_without_raise
unfoldable pub rmtree : System → List String → Files → Files
rmtree system p = remove_where (λ q. is_under p q && not (system.keeps q))

-- A path from a directory, whose parts are given from the last one on
unfoldable pub walk : List String → List String → List String
walk dirs [] = dirs
walk [] (d ∷ p) = if d == ".." || d == "." then walk [] p else walk (d ∷ []) p
walk (e ∷ dirs) (d ∷ p) =
    if d == ".." then walk dirs p else if d == "." then walk (e ∷ dirs) p else walk (d ∷ e ∷ dirs) p

abbrev reversed_onto : List String → List String → List String
reversed_onto [] q = q
reversed_onto (d ∷ p) q = reversed_onto p (d ∷ q)

-- The path of a link without its last part, the last part first
abbrev directory : List String → List String
directory p = elim (reversed_onto p []) [ [] ↦ [] | d ∷ dirs ↦ dirs ]

-- os.path.exists of a file, through at most `n` links
unfoldable pub exists_within : ℕ → List String → Files → Bool
unfolding walk
exists_within zero p files = false
exists_within (suc n) p files = elim (read p files) [
  | none ↦ false
  | some (file contents) ↦ true
  | some (link q) ↦ exists_within n q files
  | some (relative_link q) ↦ exists_within n (reversed_onto (walk (directory p) q) []) files
]

-- os.path.exists; the system follows at most 40 links.
unfoldable pub exists : List String → Files → Bool
unfolding exists_within
exists = exists_within 41

same_path-eq : (p q : List String) → same_path p q ≡ true → p ≡ q
same_path-eq [] [] h = refl
same_path-eq [] (b ∷ q) h = cc
same_path-eq (a ∷ p) [] h = cc
same_path-eq (a ∷ p) (b ∷ q) h =
    let first : a ≡ b = ground (arith, eq_iff a b, h) in
    let rest = same_path-eq p q (ground (arith, h)) in cc

pub same_path_refl : (p : List String) → same_path p p ≡ true
same_path_refl [] = refl
same_path_refl (a ∷ p) = ground (arith, eq_refl a, same_path_refl p)

pub is_under-append : (p q : List String) → is_under p (p ++ q) ≡ true
is_under-append [] q = refl
is_under-append (a ∷ p) q = ground (arith, eq_refl a, is_under-append p q)

-- A test on paths says the same of the same path.
pub same_path-test :
    (gone : List String → Bool) (p q : List String) → same_path p q ≡ true → gone p ≡ gone q
same_path-test gone p q h = ap gone (same_path-eq p q h)

pub read-remove_where :
    (gone : List String → Bool) (q : List String) (files : Files)
    → read q (remove_where gone files) ≡ (if gone q then none else read q files)
unfolding read remove_where
read-remove_where gone q [] = ground arith
read-remove_where gone q ((p, e) ∷ files) = elim (Bool-cases (same_path p q)) [
  | inl same ↦ ground (arith, same, same_path-test gone p q same, read-remove_where gone q files)
  | inr differs ↦ ground (arith, differs, read-remove_where gone q files)
]

-- What is written where it will be removed is not seen afterwards.
pub removed-write :
    (gone : List String → Bool) (p q : List String) (contents : String) (files : Files)
    → gone p ≡ true
    → gone q ≡ false
    → read q (write_to_file p contents files) ≡ read q files
unfolding write_to_file read
removed-write gone p q contents files h k = elim (Bool-cases (same_path p q)) [
  | inl same ↦ ground (arith, h, k, same_path-test gone p q same)
  | inr differs ↦ ground (arith, differs, read-remove_where (same_path p) q files)
]

pub removed-create_link :
    (system : System) (gone : List String → Bool) (source : Entry) (p q : List String)
    (files : Files)
    → gone p ≡ true
    → gone q ≡ false
    → read q (create_link system source p files) ≡ read q files
unfolding create_link read
removed-create_link system gone source p q files h k = elim (Bool-cases (same_path p q)) [
  | inl same ↦ ground (arith, h, k, same_path-test gone p q same)
  | inr differs ↦ ground (arith, differs)
]

pub read-write_to_file :
    (p : List String) (contents : String) (files : Files)
    → read p (write_to_file p contents files) ≡ some (file contents)
unfolding write_to_file read
read-write_to_file p contents files = ground (arith, same_path_refl p)

-- A link does not hide what is there.
pub create_link-kept :
    (system : System) (source : Entry) (p q : List String) (files : Files) (e : Entry)
    → read q files ≡ some e
    → read q (create_link system source p files) ≡ some e
unfolding create_link read
create_link-kept system source p q files e h = elim (Bool-cases (same_path p q)) [
  | inl same ↦ ground (arith, h, ap (λ r. read r files) (same_path-eq p q same))
  | inr differs ↦ ground (arith, differs, h)
]
