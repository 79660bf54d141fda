-- ===== src/Db/Tables/Refinement.antt =====
-- The refinement: each call on a table answers and changes the table as the specification of
-- Db/Tables/Names.antt says (create, destroy and save of xcat3/db/sqlalchemy/api.py).
use xcat.Prelude.{
  inl, inr, Option-cases, sym, ◌∙◌, ◌≡◌, refl, true, false, String, eq_iff, none, some, List, [],
  ◌∷◌, arith, is_none, update_where, find_where, find_where-append, find_where-update_one,
}
use xcat.Db.{Db, err, Engine, RollsBack}
use xcat.Db.Tables.Outcomes.{
  create-cases, destroy-cases, Updated, update-cases, missing, clash, done,
}
use xcat.Db.Tables.Keys.{create-IsKeyed, destroy-IsKeyed, update-IsKeyed}
use xcat.Db.Tables.Names.{
  replaced, execute_all, required_all, AllProper, Map, Command, make, drop, save, without, put,
  required, seen, execute, IsProper, Shows, find_where-own_id, find_where-others,
  find_where-dropped,
}
use xcat.Db.Tables.{Table, IsTable, number, has_key, is_row, update, save_by_key, get_by_key}

module _ {R : Type 0} (t : Table R) (law : IsTable t) (engine : Engine)
    (rb : RollsBack engine) where
  -- A call answers as the specification does, and its table shows the map that the specification leaves.
  abbrev pub Refines : Command R → Map R → Db → Type 0
  Refines c m db =
      ((execute t engine c db).0 ≡ (required t c m).0)
      × Shows t (required t c m).1 (execute t engine c db).1

  make-Refines :
      (r : R) (m : Map R) (db : Db) → Shows t m db → IsProper t (make r) db → Refines (make r) m db
  unfolding execute
  make-Refines r m db shows fresh =
      let kept = create-IsKeyed t law engine rb r db shows.keyed fresh in
      elim (create-cases t law engine rb db r) [
        | inl (taken, e) ↦
            let known : is_none (m (t.key r)) ≡ false =
              ground (arith, taken, shows.view (t.key r)) in
            rw (known, e) (refl, shows)
        | inr (free, e) ↦
            let unknown : is_none (m (t.key r)) ≡ true =
              ground (arith, free, shows.view (t.key r)) in
            rw (unknown, e)
              (
                refl,
                record {
                  keyed = rw e at kept;
                  view = λ k.
                      rw
                        (
                          law.rows-store,
                          find_where-append (has_key t k) (t.rows db) (r ∷ []),
                          shows.view k,
                        )
                        (ground (arith, unknown, eq_iff (t.key r) k));
                },
              )
      ]

  drop-Refines : (k : String) (m : Map R) (db : Db) → Shows t m db → Refines (drop k) m db
  unfolding execute
  drop-Refines k m db shows =
      let kept = destroy-IsKeyed t law engine rb k db shows.keyed in
      elim (destroy-cases t law engine rb db k) [
        | inl (nobody, e) ↦ rw (sym (shows.view k) ∙ nobody, e) (refl, shows)
        | inr ((r, found), e) ↦
            rw (sym (shows.view k) ∙ found, e)
              (
                refl,
                record {
                  keyed = rw e at kept;
                  view = λ j.
                      rw (law.rows-store, find_where-dropped t k j (t.rows db), shows.view j) refl;
                },
              )
      ]

  save_by_key-missing :
      (k : String) (values : R → R) (db : Db)
      → find_where (has_key t k) (t.rows db) ≡ none
      → save_by_key t engine k values db ≡ (err t.not_found, db)
  unfolding save_by_key get_by_key
  save_by_key-missing k values db nobody = ground (arith, nobody)

  save_by_key-found :
      (k : String) (values : R → R) (db : Db) (r : R)
      → find_where (has_key t k) (t.rows db) ≡ some r
      → save_by_key t engine k values db ≡ update t engine (number (t.id r)) values db
  unfolding save_by_key get_by_key
  save_by_key-found k values db r found = ground (arith, found)

  -- What is found after the save of the row of a key.
  view-updated :
      (k : String) (values : R → R) (m : Map R) (db : Db) (r : R) (j : String)
      → Shows t m db
      → find_where (has_key t k) (t.rows db) ≡ some r
      → is_none (without k m (t.key (values r))) ≡ true
      → find_where (has_key t j) (update_where (is_row t (t.id r)) values (t.rows db))
        ≡ put (t.key (values r)) (values r) (without k m) j
  view-updated k values m db r j shows found unknown =
      let left = find_where-others t k r db j shows.keyed found in
      find_where-update_one (is_row t (t.id r)) (has_key t j) values (t.rows db) r
        (find_where-own_id t k r db shows.keyed found) (shows.keyed.ids (t.id r))
        (λ same. ground (arith, left, shows.view j, unknown, same, eq_iff (t.key (values r)) j))
      ∙ rw (left, shows.view j) refl

  update-Refines :
      (k : String) (values : R → R) (m : Map R) (db : Db) (r : R)
      → Shows t m db
      → IsProper t (save k values) db
      → find_where (has_key t k) (t.rows db) ≡ some r
      → Updated t law engine rb db (t.id r) values
      → ((seen t (update t engine (number (t.id r)) values db)).0 ≡ (replaced t k (values r) m).0)
        × Shows t
            (replaced t k (values r) m).1
            (seen t (update t engine (number (t.id r)) values db)).1
  update-Refines k values m db r shows same_id found (missing nobody e) =
      absurd (ground (arith, nobody, find_where-own_id t k r db shows.keyed found))
  update-Refines k values m db r shows same_id found (clash s own taken e) =
      let same : s ≡ r = ground (arith, own, find_where-own_id t k r db shows.keyed found) in
      let left = find_where-others t k r db (t.key (values r)) shows.keyed found in
      let known : is_none (without k m (t.key (values r))) ≡ false =
        ground (arith, rw same at taken, left, shows.view (t.key (values r))) in
      rw (known, e) (refl, shows)
  update-Refines k values m db r shows same_id found (done s own free e) =
      let same : s ≡ r = ground (arith, own, find_where-own_id t k r db shows.keyed found) in
      let left = find_where-others t k r db (t.key (values r)) shows.keyed found in
      let unknown : is_none (without k m (t.key (values r))) ≡ true =
        ground (arith, rw same at free, left, shows.view (t.key (values r))) in
      let kept = update-IsKeyed t law engine rb (t.id r) values db same_id shows.keyed in
      rw (unknown, e)
        (
          refl,
          record {
            keyed = rw e at kept;
            view = λ j. rw law.rows-store (view-updated k values m db r j shows found unknown);
          },
        )

  save-Refines :
      (k : String) (values : R → R) (m : Map R) (db : Db)
      → Shows t m db
      → IsProper t (save k values) db
      → Refines (save k values) m db
  unfolding execute
  save-Refines k values m db shows same_id =
      elim (Option-cases (find_where (has_key t k) (t.rows db))) [
        | inl nobody ↦
            rw (sym (shows.view k) ∙ nobody, save_by_key-missing k values db nobody) (refl, shows)
        | inr (r, found) ↦
            rw (sym (shows.view k) ∙ found, save_by_key-found k values db r found)
              (update-Refines k values m db r shows same_id found
                (update-cases t law engine rb db (t.id r) values))
      ]

  -- execute
  pub execute-Refines :
      (c : Command R) (m : Map R) (db : Db) → Shows t m db → IsProper t c db → Refines c m db
  execute-Refines (make r) m db shows fresh = make-Refines r m db shows fresh
  execute-Refines (drop k) m db shows _ = drop-Refines k m db shows
  execute-Refines (save k values) m db shows same_id = save-Refines k values m db shows same_id

  -- For any sequence of calls that create, destroy and save rows of a table, the calls reply and
  -- the table shows, one call after the other, what the specification on a map from keys to rows
  -- requires: a key that is taken is refused, a missing one is not found, and a save moves the row
  -- to its new key if that is free. It is for a table whose ids and keys are unique at the start
  -- and which shows the map of the start, new rows with unused ids, saves that leave the id, and a
  -- database that rolls back.
  pub execute_all-Refines :
      (cs : List (Command R)) (m : Map R) (db : Db)
      → Shows t m db
      → AllProper t engine cs db
      → ((execute_all t engine cs db).0 ≡ (required_all t cs m).0)
        × Shows t (required_all t cs m).1 (execute_all t engine cs db).1
  execute_all-Refines [] m db shows proper = (refl, shows)
  execute_all-Refines (c ∷ cs) m db shows (proper, rest) =
      let (same, after) = execute-Refines c m db shows proper in
      let (sames, final) =
        execute_all-Refines cs (required t c m).1 (execute t engine c db).1 after rest in
      (cc, final)
