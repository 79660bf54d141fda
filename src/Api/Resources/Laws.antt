-- ===== src/Api/Resources/Laws.antt =====
-- What the handler of a PATCH stores: xcat3/api/controllers/v1/network.py, osimage.py and passwd.py.
use mathlib.Core.Option
use xcat.Prelude.{
  ℕ, ◌≡◌, refl, sym, ap, ◌∙◌, true, false, not, ◌&&◌, String, eq_iff, eqb, Option, none, some, List,
  [], ◌∷◌, arith, inl, inr, Bool-cases, if◌then◌else◌, is_none, find_where, update_where,
  find_where-transfer, Option-cases,
}
use xcat.Db.{Db, ok, Result-cases, Engine, RollsBack}
use xcat.Db.Tables.{Table, IsTable, is_row, has_key, get_by_id, get_by_key}
use xcat.Db.Tables.Keys.{IsKeyed}
use xcat.Db.Tables.Outcomes.{update-cases, missing, clash, done}
use xcat.Api.Patch.{Patch}
use xcat.Api.Resources.{
  Apply, as_dict, obj_get_changes, patched_document, save, patch, Field, Resource, network, osimage,
  passwd, Document, value_in, same_value, update_changed_fields, write_changes,
}

module _ {R : Type 0} where
  -- A field that can hold a value gives it back, and is as it was when it is given its own.
  pub record IsField (f : Field R) : Type 0 where
    pub get-put :
        (v : Option String) (r : R) → (is_none v && not f.nullable) ≡ false → f.get (f.put v r) ≡ v
    pub put-get : (r : R) → f.put (f.get r) r ≡ r

  -- Two fields do not write each other.
  abbrev pub Apart : Field R → List (Field R) → Type 0
  Apart f [] = Unit
  Apart f (g ∷ fields) =
      ((v : Option String) (r : R) → g.get (f.put v r) ≡ g.get r)
      × ((v : Option String) (r : R) → f.get (g.put v r) ≡ f.get r)
      × Apart f fields

  abbrev pub Lawful : List (Field R) → Type 0
  Lawful [] = Unit
  Lawful (f ∷ fields) = IsField f × Apart f fields × Lawful fields

pub network-Lawful : Lawful network.fields
network-Lawful = grind arith

pub osimage-Lawful : Lawful osimage.fields
osimage-Lawful = grind arith

pub passwd-Lawful : (methods : List String) → Lawful (passwd methods).fields
passwd-Lawful methods = grind arith

same_value-eq : (v w : Option String) → same_value v w ≡ true → v ≡ w
same_value-eq none none h = refl
same_value-eq none (some t) h = cc
same_value-eq (some s) none h = cc
same_value-eq (some s) (some t) h = ap (λ u. some u) ((eq_iff s t).0 h)

module _ {R : Type 0} where
  abbrev Agree : List (Field R) → R → R → Type 0
  Agree [] old row = Unit
  Agree (f ∷ fields) old row = (f.get old ≡ f.get row) × Agree fields old row

  Agree-refl : (fields : List (Field R)) (old : R) → Agree fields old old
  Agree-refl [] old = tt
  Agree-refl (f ∷ fields) old = (refl, Agree-refl fields old)

  Agree-put :
      (f : Field R) (fields : List (Field R)) (old row : R) (v : Option String)
      → Apart f fields
      → Agree fields old row
      → Agree fields old (f.put v row)
  Agree-put f [] old row v apart agree = tt
  Agree-put f (g ∷ fields) old row v apart agree =
      (agree.0 ∙ sym (apart.0 v row), Agree-put f fields old row v apart.2 agree.1)

  -- The fields that come later leave the value of a field as it is.
  get-update :
      (f : Field R) (fields : List (Field R)) (doc : Document) (row r : R)
      → Apart f fields
      → update_changed_fields fields doc row ≡ ok r
      → f.get r ≡ f.get row
  unfolding update_changed_fields
  get-update f [] doc row r apart h = cc
  get-update f (g ∷ fields) doc row r apart h =
      elim (Bool-cases (is_none (value_in doc g.name) && not g.nullable)) [
        | inl refused ↦ ground (arith, refused)
        | inr stored ↦
            let rest : update_changed_fields fields doc (g.put (value_in doc g.name) row) ≡ ok r =
              ground (arith, stored) in
            get-update f fields doc (g.put (value_in doc g.name) row) r apart.2 rest
            ∙ apart.1 (value_in doc g.name) row
      ]

  -- The columns that have changed make the row what the object is.
  pub write_changes-update :
      (fields : List (Field R)) (doc : Document) (old row r : R)
      → Lawful fields
      → Agree fields old row
      → update_changed_fields fields doc row ≡ ok r
      → write_changes fields old r row ≡ r
  unfolding update_changed_fields write_changes
  write_changes-update [] doc old row r law agree h = cc
  write_changes-update (f ∷ fields) doc old row r law agree h =
      let v = value_in doc f.name in
      elim (Bool-cases (is_none v && not f.nullable)) [
        | inl refused ↦ ground (arith, refused)
        | inr stored ↦
            let rest : update_changed_fields fields doc (f.put v row) ≡ ok r =
              ground (arith, stored) in
            let value : f.get r ≡ v =
              get-update f fields doc (f.put v row) r law.1 rest ∙ law.0.get-put v row stored in
            let step : (if same_value (f.get old) (f.get r) then row else f.put (f.get r) row)
                ≡ f.put v row =
              elim (Bool-cases (same_value (f.get old) (f.get r))) [
                | inl same ↦
                    let own : f.get row ≡ v =
                      sym agree.0 ∙ same_value-eq (f.get old) (f.get r) same ∙ value in
                    rw same (sym (law.0.put-get row) ∙ ap (λ w. f.put w row) own)
                | inr differs ↦ rw differs (ap (λ w. f.put w row) value)
              ] in
            ap (write_changes fields old r) step
            ∙ write_changes-update fields doc old (f.put v row) r law.2
                (Agree-put f fields old row v law.1 agree.1) rest
      ]

  -- No field writes the id.
  abbrev pub Keeps : (R → ℕ) → List (Field R) → Type 0
  Keeps id [] = Unit
  Keeps id (f ∷ fields) = ((v : Option String) (r : R) → id (f.put v r) ≡ id r) × Keeps id fields

  write_changes-id :
      (id : R → ℕ) (fields : List (Field R)) (old r row : R)
      → Keeps id fields
      → id (write_changes fields old r row) ≡ id row
  unfolding write_changes
  write_changes-id id [] old r row keeps = refl
  write_changes-id id (f ∷ fields) old r row keeps =
      elim (Bool-cases (same_value (f.get old) (f.get r))) [
        | inl same ↦ rw same (write_changes-id id fields old r row keeps.1)
        | inr differs ↦
            rw differs (
              write_changes-id id fields old r (f.put (f.get r) row) keeps.1
              ∙ keeps.0 (f.get r) row)
      ]

pub network-Keeps : Keeps (λ n. n.id) network.fields
network-Keeps = grind arith

-- An update of the row with one id, as a search by id sees it.
find_by_id-update :
    {R : Type 0} (t : Table R) (values : R → R) (i j : ℕ) (rows : List R)
    → ((r : R) → t.id (values r) ≡ t.id r)
    → find_where (is_row t j) (update_where (is_row t i) values rows) ≡ (
        if eqb i j
        then Option.map values (find_where (is_row t j) rows)
        else find_where (is_row t j) rows)
find_by_id-update t values i j [] keeps = ground arith
find_by_id-update t values i j (r ∷ rows) keeps =
    ground (arith, keeps r, find_by_id-update t values i j rows keeps)

module _ {R : Type 0} (res : Resource R) where
  -- What a PATCH of a name leaves: the object of the patched document in the place of its row.
  pub record Patched (apply : Apply) (k : String) (ps : List Patch) (db db' : Db) (r : R)
      : Type 0 where
    pub old : R
    pub doc : Document
    pub found : get_by_key res.table k db ≡ (ok old, db)
    pub patches : patched_document apply (as_dict res.fields old) ps ≡ ok doc
    pub updates : update_changed_fields res.fields doc old ≡ ok r
    pub stored : get_by_id res.table (res.table.id old) db' ≡ (ok r, db')
    pub others :
        (i : ℕ)
        → eqb (res.table.id old) i ≡ false
        → (get_by_id res.table i db').0 ≡ (get_by_id res.table i db).0

  -- A save of the object of a row
  pub record Saved (old r saved : R) (db db' : Db) : Type 0 where
    pub result : saved ≡ r
    pub stored : get_by_id res.table (res.table.id old) db' ≡ (ok r, db')
    pub others :
        (i : ℕ)
        → eqb (res.table.id old) i ≡ false
        → (get_by_id res.table i db').0 ≡ (get_by_id res.table i db).0

module _ {R : Type 0} (res : Resource R) (law : IsTable res.table) (lawful : Lawful res.fields)
    (keeps : Keeps res.table.id res.fields) (engine : Engine) (rb : RollsBack engine) where
  save-Saved :
      (doc : Document) (old r saved : R) (db : Db)
      → find_where (is_row res.table (res.table.id old)) (res.table.rows db) ≡ some old
      → update_changed_fields res.fields doc old ≡ ok r
      → (save res engine old r db).0 ≡ ok saved
      → Saved res old r saved db (save res engine old r db).1
  unfolding save get_by_id
  save-Saved doc old r saved db found updates h =
      let t = res.table in
      let values = write_changes res.fields old r in
      let becomes : values old ≡ r =
        write_changes-update res.fields doc old old r lawful (Agree-refl res.fields old) updates in
      let same_id = λ (row : R). write_changes-id t.id res.fields old r row keeps in
      elim (Result-cases (res.validate (obj_get_changes res.fields old r))) [
        | inr (e, refused) ↦ absurd (ground (arith, refused, h))
        | inl (_, valid) ↦ elim (update-cases t law engine rb db (t.id old) values) [
          | missing nobody e ↦ absurd (ground (arith, valid, e, h))
          | clash x here taken e ↦ absurd (ground (arith, valid, e, h))
          | done x here free e ↦
              let rows = update_where (is_row t (t.id old)) values (t.rows db) in
              let ours : x ≡ old = cc in
              let out : save res engine old r db ≡ (ok r, t.store rows db) =
                ground (arith, valid, e, ours, becomes) in
              let reads = law.rows-store rows db in
              let finds = λ (j : ℕ). find_by_id-update t values (t.id old) j (t.rows db) same_id in
              record {
                result = ground (arith, out, h);
                stored = rw out (ground (arith, reads, finds (t.id old), found, becomes));
                others = λ i differs. rw out (ground (arith, reads, finds i, differs));
              }
        ]
      ]

  -- If a PATCH of the name k returns an object r on tables whose ids and names are unique, if the
  -- database rolls back: the row of that name gave a document, the patched document gave r by
  -- _update_changed_fields, the row with that id is r afterwards, although only the changed
  -- columns were written, and a search by another id gives what it gave; for a class whose fields
  -- do not write each other or the id.
  pub patch-Patched :
      (apply : Apply) (k : String) (ps : List Patch) (db : Db) (r : R)
      → IsKeyed res.table db
      → (patch res engine apply k ps db).0 ≡ ok r
      → Patched res apply k ps db (patch res engine apply k ps db).1 r
  unfolding patch get_by_key
  patch-Patched apply k ps db r keyed h =
      let t = res.table in
      elim (Option-cases (find_where (has_key t k) (t.rows db))) [
        | inl nobody ↦ absurd (ground (arith, nobody, h))
        | inr (old, found) ↦
            elim (Result-cases (patched_document apply (as_dict res.fields old) ps)) [
              | inr (e, bad) ↦ absurd (ground (arith, found, bad, h))
              | inl (doc, patches) ↦
                  elim (Result-cases (update_changed_fields res.fields doc old)) [
                    | inr (e, bad) ↦ absurd (ground (arith, found, patches, bad, h))
                    | inl (new, updates) ↦
                        let by_id : find_where (is_row t (t.id old)) (t.rows db) ≡ some old =
                          find_where-transfer (has_key t k) (is_row t (t.id old)) (t.rows db) old
                            found (ground arith) (keyed.ids (t.id old)) in
                        let out : patch res engine apply k ps db ≡ save res engine old new db =
                          ground (arith, found, patches, updates) in
                        let wrote : (save res engine old new db).0 ≡ ok r =
                          ap (λ x. x.0) (sym out) ∙ h in
                        let done_save = save-Saved doc old new r db by_id updates wrote in
                        rw out (record {
                          old = old;
                          doc = doc;
                          found = ground (arith, found);
                          patches = patches;
                          updates = rw (done_save.result) updates;
                          stored = rw (done_save.result) (done_save.stored);
                          others = done_save.others;
                        })
                  ]
            ]
      ]
