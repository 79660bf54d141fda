-- ===== src/Copycd/Upload.antt =====
-- What upload of xcat3/copycd/base.py leaves in the table of images.
use xcat.Prelude.{
  ℕ, ◌≡◌, refl, Bool, true, String, eq_refl, Option, none, some, List, [], ◌∷◌, arith, inl, inr,
  Option-cases, Bool-cases, false, ltb, count_where, update_where, ◌++◌, ◌+◌, if◌then◌else◌,
  find_where, find_where-append, find_where-update, eqb,
}
use xcat.Db.{OsImage, Db, ok, Engine, RollsBack}
use xcat.Db.Tables.{IsTable, images, is_row, has_disto_info, get_image_by_disto_info}
use xcat.Db.Tables.Outcomes.{create-cases, update-cases, missing, clash, done}
use xcat.Copycd.{DistInfo, image_name, new_image, upload}

images-IsTable : IsTable images
images-IsTable = record { plain = refl; rows-store = λ rows db. refl }

-- A test that a row meets which another test finds, finds a row.
find_where-some :
    {A : Type 0} (p q : A → Bool) (rows : List A) (r : A)
    → find_where q rows ≡ some r
    → p r ≡ true
    → find_where p rows ≡ none
    → ⊥
find_where-some p q [] r found h nobody = cc
find_where-some p q (s ∷ rows) r found h nobody = ground (arith, find_where-some p q rows r)

abbrev is_image_of : DistInfo → OsImage → Bool
is_image_of i = has_disto_info i.product i.version i.arch

count_where-update :
    {A : Type 0} (p q : A → Bool) (f : A → A) (rows : List A)
    → ((r : A) → p (f r) ≡ p r)
    → count_where p (update_where q f rows) ≡ count_where p rows
count_where-update p q f [] h = refl
count_where-update p q f (r ∷ rows) h = ground (arith, h r, count_where-update p q f rows h)

count_where-appended :
    {A : Type 0} (p : A → Bool) (rows : List A) (r : A)
    → count_where p (rows ++ r ∷ []) ≡ count_where p rows + (if p r then 1 else 0)
count_where-appended p [] r = omega arith
count_where-appended p (s ∷ rows) r = omega (arith, count_where-appended p rows r)

absent-count :
    {A : Type 0} (p : A → Bool) (rows : List A) → find_where p rows ≡ none → count_where p rows ≡ 0
absent-count p [] h = refl
absent-count p (r ∷ rows) h = ground (arith, h, absent-count p rows)

-- The image of a medium is found, with a name and the name of its iso.
abbrev pub Uploaded : Option String → DistInfo → String → Db → Type 0
Uploaded name i path db =
    (m : OsImage) × (get_image_by_disto_info i.product i.version i.arch db ≡ (ok m, db))
    × (m.name ≡ image_name name i)
    × (m.orig_name ≡ some path)

module _ (engine : Engine) (rb : RollsBack engine) (fresh_id : ℕ) (name : Option String)
    (i : DistInfo) (path : String) (db : Db) (image : OsImage) where
  new_image-Uploaded :
      find_where (is_image_of i) db.images ≡ none
      → (upload engine fresh_id name i path db).0 ≡ ok image
      → Uploaded name i path (upload engine fresh_id name i path db).1
  unfolding upload get_image_by_disto_info
  new_image-Uploaded absent h =
      elim (create-cases images images-IsTable engine rb db (new_image fresh_id name i path)) [
        | inl (taken, e) ↦
            absurd (ground (arith, absent, absent-count (is_image_of i) db.images absent, e, h))
        | inr (free, e) ↦ (
          new_image fresh_id name i path,
          ground (
            arith,
            absent,
            e,
            eq_refl i.product,
            eq_refl i.version,
            eq_refl i.arch,
            absent-count (is_image_of i) db.images absent,
            count_where-appended (is_image_of i) db.images (new_image fresh_id name i path),
            find_where-append (is_image_of i) db.images (new_image fresh_id name i path ∷ []),
          ),
          refl,
          refl,
        )
      ]

  old_image-Uploaded :
      (old : OsImage)
      → find_where (is_image_of i) db.images ≡ some old
      → ltb 1 (count_where (is_image_of i) db.images) ≡ false
      → (upload engine fresh_id name i path db).0 ≡ ok image
      → Uploaded name i path (upload engine fresh_id name i path db).1
  unfolding upload get_image_by_disto_info
  old_image-Uploaded old found one h =
      let values =
        λ (row : OsImage). record row { name = image_name name i; orig_name = some path } in
      let same_row : eqb old.id old.id ≡ true = ground arith in
      elim (update-cases images images-IsTable engine rb db old.id values) [
        | missing nobody e ↦ absurd (
            find_where-some (is_row images old.id) (is_image_of i) db.images old found same_row
              nobody)
        | clash r here taken e ↦ absurd (ground (arith, found, one, e, h))
        | done r here free e ↦ (
          values old,
          ground (
            arith,
            found,
            one,
            e,
            same_row,
            count_where-update (is_image_of i) (is_row images old.id) values db.images
                (λ row. refl),
            find_where-update (is_image_of i) (is_row images old.id) values db.images (λ row. refl),
          ),
          refl,
          refl,
        )
      ]

  upload-Uploaded_single :
      ltb 1 (count_where (is_image_of i) db.images) ≡ false
      → (upload engine fresh_id name i path db).0 ≡ ok image
      → Uploaded name i path (upload engine fresh_id name i path db).1
  upload-Uploaded_single one h = elim (Option-cases (find_where (is_image_of i) db.images)) [
    | inl absent ↦ new_image-Uploaded absent h
    | inr (old, found) ↦ old_image-Uploaded old found one h
  ]

  -- If upload returns, one image has the product, version and arch of the medium, it is found
  -- afterwards, and it has the name that was asked for or the default one, and the name of the
  -- iso, whether there was such an image before or not, if the database rolls back.
  pub upload-Uploaded :
      (upload engine fresh_id name i path db).0 ≡ ok image
      → Uploaded name i path (upload engine fresh_id name i path db).1
  unfolding upload get_image_by_disto_info
  upload-Uploaded h = elim (Bool-cases (ltb 1 (count_where (is_image_of i) db.images))) [
    | inl many ↦ absurd (ground (arith, many, h))
    | inr one ↦ upload-Uploaded_single one h
  ]
