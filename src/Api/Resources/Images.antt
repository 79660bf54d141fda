-- ===== src/Api/Resources/Images.antt =====
-- The deletion of an image: OSImageController.delete of xcat3/api/controllers/v1/osimage.py, with
-- destroy_osimages of xcat3/plugins/utils.py and ConductorAPI.destroy_osimage of
-- xcat3/conductor/rpcapi.py.
use xcat.Prelude.{
  ℕ, ◌≡◌, refl, Bool, true, false, not, ◌&&◌, ◌||◌, String, eq_iff, none, some, List, [], ◌∷◌, ◌++◌,
  map, arith, inl, inr, Bool-cases, Option-cases, if◌then◌else◌, eqb, is_empty, select, find_where,
  find_where-select-none, find_where-meets, delete_where,
}
use xcat.Db.{
  Node, OsImage, Service, Db, attribute_error, resource_in_using, Result, ok, err, Engine,
  RollsBack,
}
use xcat.Db.Tables as Tables
use xcat.Db.Tables.{IsTable, images, has_key, get_by_key}
use xcat.Db.Tables.Outcomes.{destroy-cases}
use xcat.Dispatch.{topic_of}
use xcat.Pxe.{get_mirror}
use xcat.Pxe.Tree.{FilePath, Files, is_under, same_path, read, read-remove_where, rmtree, unlink}
use xcat.Copycd.{Dirs, Disk}
use xcat.Copycd.Cache.{iso_path}

-- ConductorAPI.destroy_osimage: the topics of the casts, for the conductors that get_services lists
unfoldable pub destroy_osimage : String → List Service → List String
destroy_osimage topic services = map (λ (s : Service). topic_of topic s.hostname) services

abbrev pub tftp_root : Dirs → OsImage → FilePath
tftp_root d m = d.tftp_dir ++ "images" ∷ get_mirror m

abbrev pub http_root : Dirs → OsImage → FilePath
http_root d m = d.install_dir ++ get_mirror m

-- plugin_utils.destroy_osimages; a path cannot be joined with None. Directories that are empty
-- afterwards are not modelled.
unfoldable pub destroy_osimages : Dirs → OsImage → Files → Result (Unit {0}) × Files
unfolding rmtree unlink
destroy_osimages d m files = elim (m.orig_name) [
  | none ↦ (err attribute_error, files)
  | some name ↦ (
    ok tt,
    unlink d.system (iso_path d.install_dir name)
        (rmtree d.system (http_root d m) (rmtree d.system (tftp_root d m) files)),
  )
]

-- The nodes that have an image.
abbrev pub uses_image : ℕ → Node → Bool
uses_image i n = elim (n.osimage_id) [ none ↦ false | some j ↦ eqb j i ]

-- OSImageController.delete: its result, the topics of its casts, and the files and tables after it
unfoldable pub delete_image :
    Engine
    → Dirs
    → String
    → (Db → List Service)
    → String
    → Disk
    → (Result (Unit {0}) × List String) × Disk
unfolding destroy_osimage destroy_osimages get_by_key
delete_image engine d topic services k s =
    let (found, db1) = get_by_key images k s.db in
    elim found [
      | err e ↦ ((err e, []), s)
      | ok m ↦
          if not (is_empty (select (uses_image m.id) db1.nodes))
          then ((err resource_in_using, []), s)
          else let casts = destroy_osimage topic (services db1) in
            let (r, files) = destroy_osimages d m s.files in
            elim r [
              | err e ↦ ((err e, casts), record { files = files; db = db1 })
              | ok _ ↦
                  let (r2, db2) = Tables.destroy images engine m.name db1 in
                  ((r2, casts), record { files = files; db = db2 })
            ]
    ]

images-IsTable : IsTable images
images-IsTable = record { plain = refl; rows-store = λ rows db. refl }

-- The paths that go with an image.
abbrev pub belongs : Dirs → OsImage → String → FilePath → Bool
belongs d m name q =
    is_under (tftp_root d m) q
    || is_under (http_root d m) q
    || same_path (iso_path d.install_dir name) q

read-destroy_osimages :
    (d : Dirs) (m : OsImage) (name : String) (files : Files) (q : FilePath)
    → m.orig_name ≡ some name
    → read q (destroy_osimages d m files).1
      ≡ (if belongs d m name q && not (d.system.keeps q) then none else read q files)
unfolding destroy_osimages rmtree unlink
read-destroy_osimages d m name files q h = ground (
  arith,
  h,
  read-remove_where (λ p. is_under (tftp_root d m) p && not (d.system.keeps p)) q files,
  read-remove_where (λ p. is_under (http_root d m) p && not (d.system.keeps p)) q
      (rmtree d.system (tftp_root d m) files),
  read-remove_where (λ p. same_path (iso_path d.install_dir name) p && not (d.system.keeps p)) q
      (rmtree d.system (http_root d m) (rmtree d.system (tftp_root d m) files)),
)

-- What a deletion that has returned leaves of the image `m`.
pub record Deleted (d : Dirs) (k : String) (m : OsImage) (before after : Disk) : Type 0 where
  pub name : String
  pub had_iso : m.orig_name ≡ some name
  pub unused : is_empty (select (uses_image m.id) before.db.nodes) ≡ true
  pub gone : find_where (has_key images k) after.db.images ≡ none
  pub nodes : after.db.nodes ≡ before.db.nodes
  pub cleared :
      (q : FilePath)
      → read q after.files
        ≡ (if belongs d m name q && not (d.system.keeps q) then none else read q before.files)

module _ (engine : Engine) (rb : RollsBack engine) (d : Dirs) (topic : String)
    (services : Db → List Service) (k : String) (s : Disk) (m : OsImage)
    (found : find_where (has_key images k) s.db.images ≡ some m) where
  no_iso : m.orig_name ≡ none → (destroy_osimages d m s.files).0 ≡ err attribute_error
  unfolding destroy_osimages
  no_iso missing = ground (arith, missing)

  removed : (name : String) → m.orig_name ≡ some name → (destroy_osimages d m s.files).0 ≡ ok tt
  unfolding destroy_osimages
  removed name had_iso = ground (arith, had_iso)

  has_name : m.name ≡ k
  has_name = (eq_iff m.name k).0 (find_where-meets (has_key images k) s.db.images m found)

  no_row : find_where (has_key images k) (delete_where (has_key images m.name) s.db.images) ≡ none
  no_row = rw has_name (
      find_where-select-none (has_key images k) (λ r. not (has_key images k r)) s.db.images
        (λ r here. ground (arith, here)))

  -- With the database that rolls back, for an image that is found by its name: if a node has it, the
  -- deletion raises ResourceInUsing, casts nothing and changes neither files nor tables.
  pub delete_image-used :
      is_empty (select (uses_image m.id) s.db.nodes) ≡ false
      → delete_image engine d topic services k s ≡ ((err resource_in_using, []), s)
  unfolding delete_image get_by_key
  delete_image-used used = ground (arith, found, used)

  -- If the deletion of an image that is found by its name returns, and the database rolls back: no
  -- node has the image, the name is not found afterwards, the nodes are as before, and of the
  -- files just those are gone that lie in the two directories of the image or are its iso and that
  -- the system lets go.
  pub delete_image-Deleted :
      (delete_image engine d topic services k s).0.0 ≡ ok tt
      → Deleted d k m s (delete_image engine d topic services k s).1
  unfolding delete_image get_by_key
  delete_image-Deleted h = elim (Bool-cases (is_empty (select (uses_image m.id) s.db.nodes))) [
    | inr used ↦ absurd (ground (arith, found, used, h))
    | inl unused ↦ elim (Option-cases m.orig_name) [
      | inl missing ↦ absurd (ground (arith, found, unused, missing, no_iso missing, h))
      | inr (name, had_iso) ↦ elim (destroy-cases images images-IsTable engine rb s.db m.name) [
        | inl (absent, e) ↦
            absurd (ground (arith, found, unused, had_iso, removed name had_iso, e, h))
        | inr (_, e) ↦
            let out : (delete_image engine d topic services k s).1 ≡ record {
              files = (destroy_osimages d m s.files).1;
              db = record s.db { images = delete_where (has_key images m.name) s.db.images };
            } =
              ground (arith, found, unused, had_iso, removed name had_iso, e) in
            record {
              name = name;
              had_iso = had_iso;
              unused = unused;
              gone = rw out no_row;
              nodes = rw out refl;
              cleared = λ q. rw out (read-destroy_osimages d m name s.files q had_iso);
            }
      ]
    ]
  ]
