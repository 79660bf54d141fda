-- ===== src/Prelude/Single.antt =====
-- One row among others: what a delete or an update of it leaves, and what is found afterwards.
use Prim.Native.Nat.{suc, ◌+◌, ◌≤◌}
use mathlib.Core.Path.{◌≡◌, refl}
use mathlib.Core.Logic.{inl, inr}
use mathlib.Core.Bool.{Bool, true, false, not}
use mathlib.Core.Option.{none, some}
use mathlib.Core.List.{List, [], ◌∷◌, ◌++◌}
use native.Mathlib.Omega.{arith}
use xcat.Prelude.Tests.{if◌then◌else◌, Bool-cases, is_none}
use xcat.Prelude.Rows.{
  select, count_where, update_where, delete_where, find_where, find_where-absent,
}

module _ {ℓ} {A : Type ℓ} where
  pub count_where-delete :
      (p q : A → Bool) (rows : List A) → count_where p (delete_where q rows) ≤ count_where p rows
  count_where-delete p q [] = omega arith
  count_where-delete p q (r ∷ rows) = ground (arith, count_where-delete p q rows)

  -- A row that is not found is not counted.
  pub count_where-unfound :
      (p : A → Bool) (rows : List A) → is_none (find_where p rows) ≡ true → count_where p rows ≡ 0
  count_where-unfound p [] h = refl
  count_where-unfound p (r ∷ rows) h = ground (arith, count_where-unfound p rows)

  pub update_where-nothing :
      (p : A → Bool) (f : A → A) (rows : List A)
      → count_where p rows ≡ 0
      → update_where p f rows ≡ rows
  update_where-nothing p f [] h = refl
  update_where-nothing p f (s ∷ rows) h = ground (arith, update_where-nothing p f rows)

  pub select-all :
      (p : A → Bool) (rows : List A) → count_where p rows ≡ 0 → select (λ s. not (p s)) rows ≡ rows
  select-all p [] h = refl
  select-all p (s ∷ rows) h = ground (arith, select-all p rows)

  -- An update of the one row that a test finds counts as that row put in the place of the others'.
  pub count_where-update_one :
      (p q : A → Bool) (f : A → A) (rows : List A) (r : A)
      → count_where p rows ≤ 1
      → find_where p rows ≡ some r
      → count_where q (update_where p f rows)
        ≡ count_where q (select (λ s. not (p s)) rows) + (if q (f r) then 1 else 0)
  count_where-update_one p q f [] r one found = cc
  count_where-update_one p q f (s ∷ rows) r one found = elim (Bool-cases (p s)) [
    | inl here ↦
        let e : s ≡ r = ground (arith, here) in
        let none_left : count_where p rows ≡ 0 = ground (arith, here) in
        rw (here, update_where-nothing p f rows none_left, select-all p rows none_left, e)
          (omega arith)
    | inr later ↦ ground (arith, later, count_where-update_one p q f rows r)
  ]

  pub find_where-append :
      (q : A → Bool) (xs ys : List A)
      → find_where q (xs ++ ys)
        ≡ elim (find_where q xs) [ none ↦ find_where q ys | some x ↦ some x ]
  find_where-append q [] ys = refl
  find_where-append q (x ∷ xs) ys = ground (arith, find_where-append q xs ys)

  pub find_where-select-none :
      (q p : A → Bool) (xs : List A)
      → ((x : A) → q x ≡ true → p x ≡ false)
      → find_where q (select p xs) ≡ none
  find_where-select-none q p [] h = refl
  find_where-select-none q p (x ∷ xs) h = ground (arith, h x, find_where-select-none q p xs h)

  pub find_where-select :
      (q p : A → Bool) (xs : List A)
      → ((x : A) → q x ≡ true → p x ≡ true)
      → find_where q (select p xs) ≡ find_where q xs
  find_where-select q p [] h = refl
  find_where-select q p (x ∷ xs) h = ground (arith, h x, find_where-select q p xs h)

  pub count_where-find :
      (p : A → Bool) (xs : List A) (x : A) → find_where p xs ≡ some x → 1 ≤ count_where p xs
  count_where-find p [] x h = cc
  count_where-find p (y ∷ xs) x h = ground (arith, count_where-find p xs x)

  -- The row that one test finds is found by another that only one row meets.
  pub find_where-transfer :
      (q p : A → Bool) (xs : List A) (x : A)
      → find_where q xs ≡ some x
      → p x ≡ true
      → count_where p xs ≤ 1
      → find_where p xs ≡ some x
  find_where-transfer q p [] x h k one = cc
  find_where-transfer q p (y ∷ xs) x h k one =
      ground (arith, find_where-transfer q p xs x, count_where-find p xs x)

  count_where-delete_one :
      (p q : A → Bool) (xs : List A) (r : A)
      → find_where p xs ≡ some r
      → q r ≡ true
      → suc (count_where q (delete_where p xs)) ≤ count_where q xs
  count_where-delete_one p q [] r found h = cc
  count_where-delete_one p q (x ∷ xs) r found h =
      ground (
        arith,
        count_where-delete p q xs,
        count_where-delete q p xs,
        count_where-delete_one p q xs r,
      )

  -- Without its one row a test finds nothing.
  pub find_where-delete_one :
      (p q : A → Bool) (xs : List A) (r : A)
      → find_where p xs ≡ some r
      → q r ≡ true
      → count_where q xs ≤ 1
      → find_where q (delete_where p xs) ≡ none
  find_where-delete_one p q xs r found h one =
      find_where-absent q (delete_where p xs)
        (omega (arith, count_where-delete_one p q xs r found h))

  -- A test that the one deleted row does not meet finds what it found.
  pub find_where-delete_other :
      (p q : A → Bool) (xs : List A) (r : A)
      → find_where p xs ≡ some r
      → q r ≡ false
      → count_where p xs ≤ 1
      → find_where q (delete_where p xs) ≡ find_where q xs
  find_where-delete_other p q [] r found h one = refl
  find_where-delete_other p q (x ∷ xs) r found h one = elim (Bool-cases (p x)) [
    | inl here ↦
        let e : x ≡ r = ground (arith, here) in
        let none_left : count_where p xs ≡ 0 = ground (arith, here) in
        rw (here, select-all p xs none_left, e, h) refl
    | inr later ↦ ground (arith, later, find_where-delete_other p q xs r)
  ]

  -- After an update of one row: the row if it meets the test, else what the others give.
  pub find_where-update_one :
      (p q : A → Bool) (f : A → A) (xs : List A) (r : A)
      → find_where p xs ≡ some r
      → count_where p xs ≤ 1
      → (q (f r) ≡ true → find_where q (delete_where p xs) ≡ none)
      → find_where q (update_where p f xs)
        ≡ (if q (f r) then some (f r) else find_where q (delete_where p xs))
  find_where-update_one p q f [] r found one free = cc
  find_where-update_one p q f (x ∷ xs) r found one free = elim (Bool-cases (p x)) [
    | inl here ↦
        let e : x ≡ r = ground (arith, here) in
        let none_left : count_where p xs ≡ 0 = ground (arith, here) in
        rw (here, update_where-nothing p f xs none_left, select-all p xs none_left, e) refl
    | inr later ↦ ground (arith, later, free, find_where-update_one p q f xs r)
  ]
