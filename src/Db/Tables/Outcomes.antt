-- ===== src/Db/Tables/Outcomes.antt =====
-- The outcomes of create, destroy and update on a table, for a database that rolls back.
use xcat.Prelude.{
  inl, inr, ◌⊎◌, Bool-cases, Option-cases, ℕ, ◌≡◌, true, false, not, String, none, some, List, [],
  ◌∷◌, ◌++◌, arith, select, delete_where, update_where, find_where,
}
use xcat.Db.{Db, duplicate_name, ok, err, Engine, RollsBack, session_for_write}
use xcat.Db.Tables.{
  Table, IsTable, number, has_key, is_row, is_taken, create, destroy, do_update, update,
}

module _ {R : Type 0} (t : Table R) (law : IsTable t) (engine : Engine) (rb : RollsBack engine)
    (db : Db) where
  abbrev pub created : R → Db
  created r = t.store (t.rows db ++ r ∷ []) db

  pub create-cases :
      (r : R)
      → ((is_taken t r (t.rows db) ≡ true) × (create t engine r db ≡ (err t.already_exists, db)))
        ⊎ ((is_taken t r (t.rows db) ≡ false) × (create t engine r db ≡ (ok r, created r)))
  unfolding create session_for_write
  create-cases r = elim (Bool-cases (is_taken t r (t.rows db))) [
    | inl taken ↦ inl (taken, ground (arith, taken, rb db db))
    | inr free ↦ inr (free, ground (arith, free))
  ]

  abbrev pub destroyed : String → Db
  destroyed k = t.store (delete_where (has_key t k) (t.rows db)) db

  pub destroy-cases :
      (k : String)
      → ((find_where (has_key t k) (t.rows db) ≡ none)
          × (destroy t engine k db ≡ (err t.not_found, db)))
        ⊎ (((r : R) × (find_where (has_key t k) (t.rows db) ≡ some r))
            × (destroy t engine k db ≡ (ok tt, destroyed k)))
  unfolding destroy session_for_write
  destroy-cases k = elim (Option-cases (find_where (has_key t k) (t.rows db))) [
    | inl missing ↦ inl (missing, ground (arith, missing, rb db db))
    | inr (r, found) ↦ inr ((r, found), ground (arith, found))
  ]

  abbrev pub others : ℕ → List R
  others i = select (λ r. not (is_row t i r)) (t.rows db)

  abbrev pub updated : ℕ → (R → R) → Db
  updated i values = t.store (update_where (is_row t i) values (t.rows db)) db

  pub data Updated (i : ℕ) (values : R → R) : Type 0 where
    missing :
        find_where (is_row t i) (t.rows db) ≡ none
        → update t engine (number i) values db ≡ (err t.not_found, db)
        → Updated i values
    clash :
        (r : R)
        → find_where (is_row t i) (t.rows db) ≡ some r
        → is_taken t (values r) (others i) ≡ true
        → update t engine (number i) values db ≡ (err duplicate_name, db)
        → Updated i values
    done :
        (r : R)
        → find_where (is_row t i) (t.rows db) ≡ some r
        → is_taken t (values r) (others i) ≡ false
        → update t engine (number i) values db ≡ (ok (values r), updated i values)
        → Updated i values

  pub update-cases : (i : ℕ) (values : R → R) → Updated i values
  unfolding update do_update session_for_write
  update-cases i values = elim (Option-cases (find_where (is_row t i) (t.rows db))) [
    | inl nobody ↦ missing nobody (ground (arith, nobody, law.plain, rb db db))
    | inr (r, found) ↦ elim (Bool-cases (is_taken t (values r) (others i))) [
      | inl taken ↦ clash r found taken (ground (arith, found, taken, rb db db))
      | inr free ↦ done r found free (ground (arith, found, free))
    ]
  ]
