-- ===== src/Db/Tables/Names.antt =====
-- A table as its callers see it, a map from keys to rows, and the proof that create, destroy and
-- save of xcat3/db/sqlalchemy/api.py keep that map as its specification says.
use xcat.Prelude.{
  inl, inr, Bool-cases, ap, ◌∙◌, ◌≡◌, true, not, String, ◌==◌, eq_iff, eq_refl, Option, none, some,
  List, [], ◌∷◌, arith, if◌then◌else◌, is_none, delete_where, count_where, find_where,
  find_where-meets, find_where-select, find_where-select-none, find_where-transfer,
  find_where-delete_one, find_where-delete_other,
}
use xcat.Db.{Db, duplicate_name, Result, ok, err, Engine, Action}
use xcat.Db.Tables.Keys.{IsKeyed}
use xcat.Db.Tables.{Table, has_key, is_row, create, destroy, save_by_key}

-- The specification: what a caller may ask of a table, and what each call does to the map.
abbrev pub Map : Type 0 → Type 0
Map R = String → Option R

pub data Command (R : Type 0) : Type 0 where
  make : R → Command R
  drop : String → Command R
  save : String → (R → R) → Command R

module _ {R : Type 0} where
  abbrev pub without : String → Map R → Map R
  without k m j = if k == j then none else m j

  abbrev pub put : String → R → Map R → Map R
  put k r m j = if k == j then some r else m j

module _ {R : Type 0} (t : Table R) where
  -- A row in the place of the one that has the key: the name that it takes must be free.
  abbrev pub replaced : String → R → Map R → Result (Unit {0}) × Map R
  replaced k r m =
      if is_none (without k m (t.key r))
      then (ok tt, put (t.key r) r (without k m))
      else (err duplicate_name, m)

  abbrev pub replaced_found : String → (R → R) → Option R → Map R → Result (Unit {0}) × Map R
  replaced_found k values none m = (err t.not_found, m)
  replaced_found k values (some r) m = replaced k (values r) m

  abbrev pub required : Command R → Map R → Result (Unit {0}) × Map R
  required (make r) m =
      if is_none (m (t.key r)) then (ok tt, put (t.key r) r m) else (err t.already_exists, m)
  required (drop k) m = if is_none (m k) then (err t.not_found, m) else (ok tt, without k m)
  required (save k values) m = replaced_found k values (m k) m

  -- What is seen of a reply: that the call succeeded, or what it raised.
  abbrev pub seen : Result R × Db → Result (Unit {0}) × Db
  seen (ok r, db) = (ok tt, db)
  seen (err e, db) = (err e, db)

  unfoldable pub execute : Engine → Command R → Action (Unit {0})
  execute engine (make r) db = seen (create t engine r db)
  execute engine (drop k) db = destroy t engine k db
  execute engine (save k values) db = seen (save_by_key t engine k values db)

  -- The values of an update leave the id, and the database has given no row the id of a new row.
  abbrev pub IsProper : Command R → Db → Type 0
  IsProper (make r) db = count_where (is_row t (t.id r)) (t.rows db) ≡ 0
  IsProper (drop k) db = Unit {0}
  IsProper (save k values) db = (r : R) → t.id (values r) ≡ t.id r

  -- Calls one after the other.
  abbrev pub execute_all : Engine → List (Command R) → Db → List (Result (Unit {0})) × Db
  execute_all engine [] db = ([], db)
  execute_all engine (c ∷ cs) db =
      let (reply, db') = execute engine c db in
      let (replies, db'') = execute_all engine cs db' in (reply ∷ replies, db'')

  abbrev pub required_all : List (Command R) → Map R → List (Result (Unit {0})) × Map R
  required_all [] m = ([], m)
  required_all (c ∷ cs) m =
      let (reply, m') = required c m in
      let (replies, m'') = required_all cs m' in (reply ∷ replies, m'')

  abbrev pub AllProper : Engine → List (Command R) → Db → Type 0
  AllProper engine [] db = Unit {0}
  AllProper engine (c ∷ cs) db = IsProper c db × AllProper engine cs (execute engine c db).1

  pub record Shows (m : Map R) (db : Db) : Type 0 where
    pub keyed : IsKeyed t db
    pub view : (k : String) → find_where (has_key t k) (t.rows db) ≡ m k

  pub has_key-own : (r : R) → has_key t (t.key r) r ≡ true
  has_key-own r = eq_refl (t.key r)

  -- The row that a key finds is the row that its id finds.
  pub find_where-own_id :
      (k : String) (r : R) (db : Db)
      → IsKeyed t db
      → find_where (has_key t k) (t.rows db) ≡ some r
      → find_where (is_row t (t.id r)) (t.rows db) ≡ some r
  find_where-own_id k r db inv found =
      find_where-transfer (has_key t k) (is_row t (t.id r)) (t.rows db) r found (ground arith)
        (inv.ids (t.id r))

  -- What is left of a map when one row is taken away.
  pub find_where-others :
      (k : String) (r : R) (db : Db) (j : String)
      → IsKeyed t db
      → find_where (has_key t k) (t.rows db) ≡ some r
      → find_where (has_key t j) (delete_where (is_row t (t.id r)) (t.rows db))
        ≡ (if k == j then none else find_where (has_key t j) (t.rows db))
  find_where-others k r db j inv found =
      let own = find_where-own_id k r db inv found in
      let e : t.key r ≡ k =
        (eq_iff (t.key r) k).0 (find_where-meets (has_key t k) (t.rows db) r found) in
      elim (Bool-cases (k == j)) [
        | inl same ↦ rw same (
            find_where-delete_one (is_row t (t.id r)) (has_key t j) (t.rows db) r own
              (ap (λ x. x == j) e ∙ same) (inv.keys j))
        | inr differs ↦ rw differs (
            find_where-delete_other (is_row t (t.id r)) (has_key t j) (t.rows db) r own
              (ap (λ x. x == j) e ∙ differs) (inv.ids (t.id r)))
      ]

  -- A deleted key is found no more, and every other key as before.
  pub find_where-dropped :
      (k j : String) (rows : List R)
      → find_where (has_key t j) (delete_where (has_key t k) rows)
        ≡ (if k == j then none else find_where (has_key t j) rows)
  find_where-dropped k j rows = elim (Bool-cases (k == j)) [
    | inl same ↦ rw same (
        find_where-select-none (has_key t j) (λ r. not (has_key t k r)) rows
          (λ r h. ground (arith, h, eq_iff (t.key r) j, eq_iff k j, eq_iff (t.key r) k)))
    | inr differs ↦ rw differs (
        find_where-select (has_key t j) (λ r. not (has_key t k r)) rows
          (λ r h. ground (arith, h, eq_iff (t.key r) j, eq_iff k j, eq_iff (t.key r) k)))
  ]
