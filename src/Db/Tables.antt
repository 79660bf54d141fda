-- ===== src/Db/Tables.antt =====
-- Networks, images and passwords: class Connection of xcat3/db/sqlalchemy/api.py. The three tables
-- have the same operations, over rows with an id and a unique key.
pub mod Outcomes
pub mod Keys
pub mod Names
pub mod Refinement
mod Calls
use xcat.Prelude.{
  count_where, ltb, ℕ, ◌≡◌, Bool, true, false, not, ◌&&◌, String, ◌==◌, Option, none, some, List,
  [], ◌∷◌, ◌++◌, if◌then◌else◌, is_none, eqb, select, delete_where, update_where, find_where,
}
use xcat.Db.{
  multiple_results_found, Network, OsImage, Passwd, Db, Error, invalid_identity, duplicate_name,
  db_duplicate_entry, network_not_found, osimage_not_found, passwd_not_found,
  network_already_exists, osimage_already_exists, passwd_already_exists, Result, ok, err, Action,
  pure, raise, ◌>>=◌, ◌>>◌, raise_if, Engine, session_for_write,
}

-- A table: where its rows are, their id, their unique key, and the exceptions of its operations.
pub record Table (R : Type 0) : Type 0 where
  pub rows : Db → List R
  pub store : List R → Db → Db
  pub id : R → ℕ
  pub key : R → String
  pub not_found : Error
  pub already_exists : Error

abbrev pub is_duplicate_entry : Error → Bool
is_duplicate_entry db_duplicate_entry = true
is_duplicate_entry _ = false

-- What is written can be read, and a missing row is not told as a duplicate.
pub record IsTable {R : Type 0} (t : Table R) : Type 0 where
  pub plain : is_duplicate_entry t.not_found ≡ false
  pub rows-store : (rows : List R) (db : Db) → t.rows (t.store rows db) ≡ rows

-- An id as a caller gives it: a number, or what is not like one.
pub data Identity : Type 0 where
  number : ℕ → Identity
  other : Identity

module _ {R : Type 0} (t : Table R) where
  abbrev pub has_key : String → R → Bool
  has_key k r = t.key r == k

  abbrev pub is_row : ℕ → R → Bool
  is_row i r = eqb (t.id r) i

  abbrev pub or_not_found : Option R → Action R
  or_not_found none db = (err t.not_found, db)
  or_not_found (some r) db = (ok r, db)

  -- get_network_by_id, get_image_by_id, get_passwd_by_id
  unfoldable pub get_by_id : ℕ → Action R
  get_by_id i db = or_not_found (find_where (is_row i) (t.rows db)) db

  -- get_network_by_name, get_image_by_name, get_passwd_by_key
  unfoldable pub get_by_key : String → Action R
  get_by_key k db = or_not_found (find_where (has_key k) (t.rows db)) db

  -- The unique constraint of the key: the database refuses a row that another row's key has.
  abbrev pub is_taken : R → List R → Bool
  is_taken r rows = not (is_none (find_where (has_key (t.key r)) rows))

  -- create_network, create_image, create_passwd, for the row that the values give
  unfoldable pub create : Engine → R → Action R
  unfolding session_for_write
  create engine r = session_for_write engine λ db.
      if is_taken r (t.rows db)
      then raise t.already_exists db
      else (ok r, t.store (t.rows db ++ r ∷ []) db)

  -- destroy_network, destroy_image, destroy_passwd
  unfoldable pub destroy : Engine → String → Action (Unit {0})
  unfolding session_for_write
  destroy engine k = session_for_write engine λ db. elim (find_where (has_key k) (t.rows db)) [
    | none ↦ raise t.not_found db
    | some r ↦ (ok tt, t.store (delete_where (has_key k) (t.rows db)) db)
  ]

  -- The transaction of an update: add_identity_filter, then `ref.update(values)`; a key that another
  -- row has is found out when the transaction is committed.
  unfoldable pub do_update : Engine → Identity → (R → R) → Action R
  unfolding session_for_write
  do_update engine other values = session_for_write engine (raise invalid_identity)
  do_update engine (number i) values = session_for_write engine λ db.
      elim (find_where (is_row i) (t.rows db)) [
        | none ↦ raise t.not_found db
        | some ref ↦
            if is_taken (values ref) (select (λ r. not (is_row i r)) (t.rows db))
            then raise db_duplicate_entry db
            else (ok (values ref), t.store (update_where (is_row i) values (t.rows db)) db)
      ]

  -- update_network, update_image, update_passwd; the key is the only unique column of the values.
  unfoldable pub update : Engine → Identity → (R → R) → Action R
  unfolding do_update
  update engine identity values db =
      let (r, db') = do_update engine identity values db in
      elim r [
        | ok ref ↦ (ok ref, db')
        | err e ↦ (err (if is_duplicate_entry e then duplicate_name else e), db')
      ]

  -- get_by_name of an object and its save, as the controllers call them.
  pub save_by_key : Engine → String → (R → R) → Action R
  unfolding get_by_key update
  save_by_key engine k values = do r ← get_by_key k; update engine (number (t.id r)) values

abbrev pub networks : Table Network
networks = record {
  rows = λ db. db.networks;
  store = λ rows db. record db { networks = rows };
  id = λ r. r.id;
  key = λ r. r.name;
  not_found = network_not_found;
  already_exists = network_already_exists;
}

abbrev pub images : Table OsImage
images = record {
  rows = λ db. db.images;
  store = λ rows db. record db { images = rows };
  id = λ r. r.id;
  key = λ r. r.name;
  not_found = osimage_not_found;
  already_exists = osimage_already_exists;
}

abbrev pub passwds : Table Passwd
passwds = record {
  rows = λ db. db.passwds;
  store = λ rows db. record db { passwds = rows };
  id = λ r. r.id;
  key = λ r. r.key;
  not_found = passwd_not_found;
  already_exists = passwd_already_exists;
}

abbrev pub has_disto_info : String → String → String → OsImage → Bool
has_disto_info distro ver arch m = m.distro == distro && m.ver == ver && m.arch == arch

-- Connection.get_image_by_disto_info; nothing keeps two images from having the same, and then `one`
-- raises MultipleResultsFound.
unfoldable pub get_image_by_disto_info : String → String → String → Action OsImage
get_image_by_disto_info distro ver arch db =
    let found = or_not_found images (find_where (has_disto_info distro ver arch) db.images) db in
    if ltb 1 (count_where (has_disto_info distro ver arch) db.images)
    then (err multiple_results_found, db)
    else found
