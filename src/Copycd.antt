-- ===== src/Copycd.antt =====
-- Netboot images from installation media: class Image of xcat3/copycd/base.py and create of
-- xcat3/copycd/copycds.py. Files stand as in Pxe.Tree; a link counts as the file that it names.
pub mod Texts
pub mod Redhat
pub mod Ubuntu
pub mod Cache
pub mod Upload
use xcat.Prelude.{
  ℕ, Bool, true, false, not, ◌&&◌, ◌||◌, String, ◌==◌, Option, none, some, List, [], ◌∷◌, ◌++◌,
  if◌then◌else◌, is_none, eqb,
}
use xcat.Db.{
  OsImage, Db, Error, command_failed, unexpected_error, invalid_file, osimage_not_found, Result, ok,
  err, Action, Engine,
}
use xcat.Db.Tables.{Identity, images, create, update, get_image_by_disto_info}
use xcat.Ssh.Texts.{concat}
use xcat.Pxe.Tree.{FilePath, Files, System, relative_link, exists, read, create_link, rmtree}

-- `dist_info`
pub record DistInfo : Type 0 where
  pub product : String
  pub version : String
  pub arch : String

-- The files of a host and the tables of the database
pub record Disk : Type 0 where
  pub files : Files
  pub db : Db

abbrev pub Act : Type 0 → Type 0
Act A = Disk → Result A × Disk

infixl 5 ◌>>=◌ ◌>>◌
abbrev pub ◌>>=◌ : {A B : Type 0} → Act A → (A → Act B) → Act B
◌>>=◌ m f s = let (r, s') = m s in elim r [ ok a ↦ f a s' | err e ↦ (err e, s') ]

abbrev pub ◌>>◌ : {A B : Type 0} → Act A → Act B → Act B
m >> k = m >>= λ _. k

abbrev done : Act (Unit {0})
done s = (ok tt, s)

-- What only looks at the files
abbrev pub looks : {A : Type 0} → (Files → Result A) → Act A
looks f s = (f s.files, s)

-- What changes the files and cannot raise
abbrev pub writes : (Files → Files) → Act (Unit {0})
writes f s = (ok tt, record s { files = f s.files })

abbrev pub stored : {A : Type 0} → Action A → Act A
stored m s = let (r, db') = m s.db in (r, record s { db = db' })

-- A subclass of Image: its parse_info on the mounted medium, and the kernel and the initrd of an
-- architecture below `dist_path`
pub record ImageClass : Type 0 where
  pub parse_info : FilePath → Files → Result (Option DistInfo)
  pub get_kernel_path : FilePath → String → Files → Result FilePath
  pub get_initrd_path : FilePath → String → Files → Result FilePath

-- What stands outside: `find . | cpio -dump` with its return code, if it ends in time, the commands
-- mount and umount, and what shutil.rmtree leaves of the temporary directory
pub record Machine : Type 0 where
  pub cpio : FilePath → FilePath → Files → Option ℕ × Files
  pub mount : FilePath → FilePath → Act (Unit {0})
  pub umount : FilePath → Act (Unit {0})
  pub rmtree : FilePath → Files → Files

-- CONF.deploy.install_dir, CONF.deploy.tftp_dir, and what the system refuses
pub record Dirs : Type 0 where
  pub install_dir : FilePath
  pub tftp_dir : FilePath
  pub system : System

-- `locals['returncode'] is None or locals['returncode'] != 0`
abbrev pub failed : Option ℕ → Bool
failed none = true
failed (some code) = not (eqb code 0)

-- Image._cpio
unfoldable pub cpio : Machine → FilePath → FilePath → Act (Unit {0})
cpio m mnt_dir dist_path s =
    let (code, files') = m.cpio mnt_dir dist_path s.files in
    (if failed code then err command_failed else ok tt, record s { files = files' })

unfoldable up : FilePath → FilePath → FilePath
up [] path = path
up (d ∷ start) path = ".." ∷ up start path

-- os.path.relpath of two absolute paths
unfoldable pub relpath : FilePath → FilePath → FilePath
unfolding up
relpath [] [] = "." ∷ []
relpath [] (d ∷ start) = up (d ∷ start) []
relpath (p ∷ path) [] = p ∷ path
relpath (p ∷ path) (d ∷ start) =
    let rest = relpath path start in if p == d then rest else up (d ∷ start) (p ∷ path)

-- Image._link_to_netboot
unfoldable pub link_to_netboot : System → FilePath → FilePath → FilePath → Files → Files
unfolding relpath
link_to_netboot system kernel initrd target files =
    create_link system (relative_link (relpath initrd target)) (target ++ "initrd.img" ∷ [])
      (create_link system (relative_link (relpath kernel target)) (target ++ "vmlinuz" ∷ []) files)

abbrev pub dist_name : DistInfo → String
dist_name i = concat (i.product ∷ i.version ∷ [])

abbrev pub dist_path : Dirs → DistInfo → FilePath
dist_path d i = d.install_dir ++ dist_name i ∷ i.arch ∷ []

-- Where the links for the netboot go.
unfoldable pub netboot_target : Dirs → DistInfo → Result FilePath
netboot_target d i =
    if i.arch == "x86_64"
    then ok (d.tftp_dir ++ "images" ∷ dist_name i ∷ i.arch ∷ [])
    else if i.arch == "ppc64le" || i.arch == "ppc64el"
    then ok (dist_path d i ++ "xcat" ∷ [])
    else err unexpected_error

-- Image.copycd
unfoldable pub copycd : Machine → Dirs → ImageClass → FilePath → DistInfo → Act (Unit {0})
unfolding cpio netboot_target
copycd m d c mnt_dir i = do
  cpio m mnt_dir (dist_path d i)
  kernel ← looks (c.get_kernel_path (dist_path d i) i.arch)
  initrd ← looks (c.get_initrd_path (dist_path d i) i.arch)
  target ← looks (λ _. netboot_target d i)
  writes (link_to_netboot d.system kernel initrd target)

abbrev pub image_name : Option String → DistInfo → String
image_name none i = concat (dist_name i ∷ "-" ∷ i.arch ∷ [])
image_name (some name) i = name

abbrev is_not_found : Error → Bool
is_not_found osimage_not_found = true
is_not_found _ = false

abbrev pub new_image : ℕ → Option String → DistInfo → String → OsImage
new_image fresh_id name i path = record {
  id = fresh_id;
  name = image_name name i;
  distro = i.product;
  ver = i.version;
  arch = i.arch;
  orig_name = some path;
  profile = none;
  provmethod = none;
  rootfstype = none;
}

-- Image.upload, where a new row gets the id `fresh_id`. A save that finds no row is caught like a
-- search that finds none.
unfoldable pub upload : Engine → ℕ → Option String → DistInfo → String → Action OsImage
upload engine fresh_id name i path db =
    let (r, db1) = get_image_by_disto_info i.product i.version i.arch db in
    let (saved, db2) : Result OsImage × Db = elim r [
      | err e ↦ (err e, db1)
      | ok image ↦
          update images engine (Identity.number image.id)
            (λ (row : OsImage). record row { name = image_name name i; orig_name = some path }) db1
    ] in
    elim saved [
      | ok image ↦ (ok image, db2)
      | err e ↦
          if is_not_found e
          then create images engine (new_image fresh_id name i path) db2
          else (err e, db2)
    ]

-- What `create` is given, but for the iso: `image`, `upload`, and the id of a new row
pub record Options : Type 0 where
  pub image : Option String
  pub is_uploaded : Bool
  pub fresh_id : ℕ
  pub iso_name : String

-- What is done with a medium that a class knows.
abbrev take_medium :
    Machine
    → Dirs
    → Engine
    → (FilePath → Files → Files)
    → Options
    → FilePath
    → FilePath
    → ImageClass
    → DistInfo
    → Act (Unit {0})
take_medium m d engine backup o iso mnt_dir c i = do
  copycd m d c mnt_dir i
  writes (backup iso)
  (if o.is_uploaded then stored (upload engine o.fresh_id o.image i o.iso_name) >> done else done)

-- The loop of `create` over the classes
unfoldable pub try_classes :
    Machine
    → Dirs
    → Engine
    → (FilePath → Files → Files)
    → Options
    → FilePath
    → FilePath
    → List ImageClass
    → Act (Unit {0})
unfolding copycd upload
try_classes m d engine backup o iso mnt_dir [] = done
try_classes m d engine backup o iso mnt_dir (c ∷ cs) =
    let rest = try_classes m d engine backup o iso mnt_dir cs in
    looks (c.parse_info mnt_dir) >>= λ info. elim info [
      | none ↦ rest
      | some i ↦ take_medium m d engine backup o iso mnt_dir c i >> rest
    ]

-- `with utils.tempdir()`: the directory is removed however the body ends.
abbrev with_tempdir : Machine → FilePath → Act (Unit {0}) → Act (Unit {0})
with_tempdir m mnt_dir body s =
    let (r, s') = body s in (r, record s' { files = m.rmtree mnt_dir s'.files })

-- copycds.create, where `backup` is backup_iso
unfoldable pub create_images :
    Machine
    → Dirs
    → Engine
    → (FilePath → Files → Files)
    → Options
    → List ImageClass
    → FilePath
    → FilePath
    → Act (Unit {0})
unfolding try_classes
create_images m d engine backup o classes mnt_dir iso s =
    if not (exists iso s.files)
    then (err invalid_file, s)
    else with_tempdir m mnt_dir
        (m.mount iso mnt_dir
          >> try_classes m d engine backup o iso mnt_dir classes
          >> m.umount mnt_dir)
        s
