-- ===== src/Prelude/Rows.antt =====
-- A table as the list of its rows: what `filter(..).all()`, `.update(..)` and `.delete()` do.
use Prim.Native.Nat.{ℕ, ◌+◌, ◌≤◌}
use mathlib.Core.Path.{◌≡◌, refl}
use mathlib.Core.Bool.{Bool, true, false, not, ◌&&◌, ◌||◌}
use mathlib.Core.Option
use mathlib.Core.Option.{Option, none, some}
use mathlib.Core.List.{List, [], ◌∷◌, ◌++◌}
use native.Mathlib.Omega.{arith}
use xcat.Prelude.Tests.{if◌then◌else◌}
use xcat.Prelude.Lists.{length}

module _ {ℓ} {A : Type ℓ} where
  abbrev pub select : (A → Bool) → List A → List A
  select p [] = []
  select p (x ∷ xs) = let rest = select p xs in if p x then x ∷ rest else rest

  -- The rows that an update or a delete matches are counted.
  abbrev pub count_where : (A → Bool) → List A → ℕ
  count_where p [] = 0
  count_where p (x ∷ xs) = (if p x then 1 else 0) + count_where p xs

  abbrev pub update_where : (A → Bool) → (A → A) → List A → List A
  update_where p f [] = []
  update_where p f (x ∷ xs) = (if p x then f x else x) ∷ update_where p f xs

  abbrev pub delete_where : (A → Bool) → List A → List A
  delete_where p = select (λ x. not (p x))

  -- `query.one()` on a unique column: the row, or none.
  abbrev pub find_where : (A → Bool) → List A → Option A
  find_where p [] = none
  find_where p (x ∷ xs) = let rest = find_where p xs in if p x then some x else rest

  -- Rows that meet `p` and are covered by two tests are at most those that meet the two.
  pub count_where-cover :
      (p q r : A → Bool) (xs : List A)
      → ((x : A) → p x ≡ true → (q x || r x) ≡ true)
      → count_where p xs ≤ count_where q xs + count_where r xs
  count_where-cover p q r [] h = omega arith
  count_where-cover p q r (x ∷ xs) h = ground (arith, h x, count_where-cover p q r xs h)

  pub count_where_mono :
      (p q : A → Bool) (xs : List A)
      → ((x : A) → p x ≡ true → q x ≡ true)
      → count_where p xs ≤ count_where q xs
  count_where_mono p q [] h = omega arith
  count_where_mono p q (x ∷ xs) h = ground (arith, h x, count_where_mono p q xs h)

  -- A test counts alike before and after an update that keeps what it tests.
  pub count_where-update :
      (p q : A → Bool) (f : A → A) (xs : List A)
      → ((x : A) → p x ≡ true → q (f x) ≡ q x)
      → count_where q (update_where p f xs) ≡ count_where q xs
  count_where-update p q f [] h = refl
  count_where-update p q f (x ∷ xs) h = ground (arith, h x, count_where-update p q f xs h)

  -- Disjoint tests count apart.
  pub count_where-disjoint :
      (p q r : A → Bool) (xs : List A)
      → ((x : A) → q x ≡ true → (p x ≡ true) × (r x ≡ false))
      → ((x : A) → r x ≡ true → p x ≡ true)
      → count_where q xs + count_where r xs ≤ count_where p xs
  count_where-disjoint p q r [] h k = omega arith
  count_where-disjoint p q r (x ∷ xs) h k =
      ground (arith, h x, k x, count_where-disjoint p q r xs h k)

  -- An update looks each row up as before and then applies to it.
  pub find_where-update :
      (q p : A → Bool) (f : A → A) (xs : List A)
      → ((x : A) → q (f x) ≡ q x)
      → find_where q (update_where p f xs)
        ≡ Option.map (λ x. if p x then f x else x) (find_where q xs)
  find_where-update q p f [] h = refl
  find_where-update q p f (x ∷ xs) h = ground (arith, h x, find_where-update q p f xs h)

  pub find_where-meets :
      (q : A → Bool) (xs : List A) (x : A) → find_where q xs ≡ some x → q x ≡ true
  find_where-meets q [] x h = cc
  find_where-meets q (y ∷ xs) x h = ground (arith, find_where-meets q xs x)

  pub length-select : (p : A → Bool) (xs : List A) → length (select p xs) ≡ count_where p xs
  length-select p [] = refl
  length-select p (x ∷ xs) = ground (arith, length-select p xs)

  pub count_where-append :
      (p : A → Bool) (xs ys : List A)
      → count_where p (xs ++ ys) ≡ count_where p xs + count_where p ys
  count_where-append p [] ys = omega arith
  count_where-append p (x ∷ xs) ys = omega (arith, count_where-append p xs ys)

  pub find_where-none :
      (q p : A → Bool) (xs : List A) → count_where q xs ≡ 0 → find_where (λ x. q x && p x) xs ≡ none
  find_where-none q p [] h = refl
  find_where-none q p (x ∷ xs) h = ground (arith, find_where-none q p xs)

  pub find_where-absent :
      (q : A → Bool) (xs : List A) → count_where q xs ≡ 0 → find_where q xs ≡ none
  find_where-absent q [] h = refl
  find_where-absent q (x ∷ xs) h = ground (arith, find_where-absent q xs)
