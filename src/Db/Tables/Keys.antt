-- ===== src/Db/Tables/Keys.antt =====
-- The ids and keys of a table stay unique: create, destroy and update of xcat3/db/sqlalchemy/api.py.
use xcat.Prelude.{
  inl, inr, Bool-cases, ap, sym, ◌∙◌, ℕ, ◌≤◌, ◌≡◌, true, false, not, String, eq_iff, List, [], ◌∷◌,
  arith, is_none, eqb, select, count_where, find_where, count_where-append, count_where-update,
  count_where-delete, count_where-unfound, count_where-update_one,
}
use xcat.Db.{Db, Engine, RollsBack}
use xcat.Db.Tables.Outcomes.{
  create-cases, destroy-cases, Updated, update-cases, missing, clash, done,
}
use xcat.Db.Tables.{Table, IsTable, number, has_key, is_row, is_taken, create, destroy, update}

module _ {R : Type 0} where
  -- No two rows share an id or a key.
  pub record IsKeyed (t : Table R) (db : Db) : Type 0 where
    pub ids : (i : ℕ) → count_where (is_row t i) (t.rows db) ≤ 1
    pub keys : (k : String) → count_where (has_key t k) (t.rows db) ≤ 1

module _ {R : Type 0} (t : Table R) where
  same_key-unfound :
      (r : R) (k : String) (rows : List R)
      → is_taken t r rows ≡ false
      → has_key t k r ≡ true
      → count_where (has_key t k) rows ≡ 0
  same_key-unfound r k rows free same =
      let e : t.key r ≡ k = (eq_iff (t.key r) k).0 same in
      let absent : is_none (find_where (has_key t (t.key r)) rows) ≡ true = ground (arith, free) in
      ap (λ k. count_where (has_key t k) rows) (sym e)
      ∙ count_where-unfound (has_key t (t.key r)) rows absent

module _ {R : Type 0} (t : Table R) (law : IsTable t) (engine : Engine)
    (rb : RollsBack engine) where
  -- create
  pub create-IsKeyed :
      (r : R) (db : Db)
      → IsKeyed t db
      → count_where (is_row t (t.id r)) (t.rows db) ≡ 0
      → IsKeyed t (create t engine r db).1
  create-IsKeyed r db inv fresh = elim (create-cases t law engine rb db r) [
    | inl (_, e) ↦ rw e inv
    | inr (free, e) ↦ rw e (record {
      ids = λ i.
          rw (law.rows-store, count_where-append (is_row t i) (t.rows db) (r ∷ []))
            (elim (Bool-cases (is_row t i r)) [
              | inl same ↦
                  let e : t.id r ≡ i = ground (arith, same) in
                  rw same (omega (arith, ap (λ i. count_where (is_row t i) (t.rows db)) e, fresh))
              | inr differs ↦ rw differs (omega (arith, inv.ids i))
            ]);
      keys = λ k.
          rw (law.rows-store, count_where-append (has_key t k) (t.rows db) (r ∷ []))
            (elim (Bool-cases (has_key t k r)) [
              | inl same ↦ rw same (omega (arith, same_key-unfound t r k (t.rows db) free same))
              | inr differs ↦ rw differs (omega (arith, inv.keys k))
            ]);
    })
  ]

  -- destroy
  pub destroy-IsKeyed : (k : String) (db : Db) → IsKeyed t db → IsKeyed t (destroy t engine k db).1
  destroy-IsKeyed k db inv = elim (destroy-cases t law engine rb db k) [
    | inl (_, e) ↦ rw e inv
    | inr (_, e) ↦ rw e (record {
      ids = λ i.
          rw law.rows-store
            (omega (arith, count_where-delete (is_row t i) (has_key t k) (t.rows db), inv.ids i));
      keys = λ j.
          rw law.rows-store
            (omega (arith, count_where-delete (has_key t j) (has_key t k) (t.rows db), inv.keys j));
    })
  ]

  -- An update of a row that leaves its id keeps the ids and the keys of a table unique, whether it
  -- returns or raises, if the database rolls back.
  pub update-IsKeyed :
      (i : ℕ) (values : R → R) (db : Db)
      → ((r : R) → t.id (values r) ≡ t.id r)
      → IsKeyed t db
      → IsKeyed t (update t engine (number i) values db).1
  update-IsKeyed i values db same_id inv = by_outcome (update-cases t law engine rb db i values)
    where
      by_outcome :
          Updated t law engine rb db i values → IsKeyed t (update t engine (number i) values db).1
      by_outcome (missing _ e) = rw e inv
      by_outcome (clash r _ _ e) = rw e inv
      by_outcome (done r found free e) = rw e (record {
        ids = λ j. rw law.rows-store (
            omega (
              arith,
              inv.ids j,
              count_where-update (is_row t i) (is_row t j) values (t.rows db)
                  (λ s h. ap (λ n. eqb n j) (same_id s)),
            ));
        keys = λ k. rw law.rows-store (elim (Bool-cases (has_key t k (values r))) [
          | inl same ↦ ground (
            arith,
            same,
            count_where-update_one (is_row t i) (has_key t k) values (t.rows db) r (inv.ids i)
                found,
            same_key-unfound t (values r) k (select (λ r. not (is_row t i r)) (t.rows db)) free
                same,
          )
          | inr differs ↦ ground (
            arith,
            differs,
            inv.keys k,
            count_where-update_one (is_row t i) (has_key t k) values (t.rows db) r (inv.ids i)
                found,
            count_where-delete (has_key t k) (is_row t i) (t.rows db),
          )
        ]);
      })
