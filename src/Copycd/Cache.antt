-- ===== src/Copycd/Cache.antt =====
-- Copies of installation media: xcat3/copycd/cache.py. What the package sendfile copies is a
-- parameter, and so is what a URL gives.
pub mod Laws
use Prim.Native.Char.{Char, code}
use Prim.Native.String
use Prim.Native.String.{String, [], ◌∷◌}
use mathlib.Core.List
use xcat.Prelude.{
  ℕ, zero, suc, ◌+◌, Bool, true, false, ◌||◌, Option, none, some, List, ◌++◌, if◌then◌else◌,
  is_none, eqb, ltb, length,
}
use xcat.Db.{Error, type_error, Result, ok, err}
use xcat.Pxe.Tree.{FilePath, Files, read, write_to_file}
use xcat.Copycd.Redhat.{text_of}

-- `block_size`, 64 MB
abbrev pub block_size : ℕ
block_size = 67108864

-- sendfile.sendfile: what it appends to the copy, for an offset and a number of bytes
abbrev pub Sendfile {ℓ} : Type ℓ → Type ℓ
Sendfile A = List A → ℕ → ℕ → List A

-- The loop of copy_image from `offset` on, in blocks of `block` bytes, and the last call after it
unfoldable pub copy_from {ℓ} : {A : Type ℓ} → Sendfile A → ℕ → ℕ → List A → ℕ → List A
copy_from sendfile zero block source offset = List.[]
copy_from sendfile (suc fuel) block source offset =
    let rest =
      sendfile source offset block ++ copy_from sendfile fuel block source (offset + block) in
    if ltb (offset + block) (length source) then rest else sendfile source offset (length source)

-- copy_image, with a round for every byte and one more
unfoldable pub copy_image {ℓ} : {A : Type ℓ} → Sendfile A → List A → List A
unfolding copy_from
copy_image sendfile source = copy_from sendfile (length source + 1) block_size source 0

abbrev is_dot : Char → Bool
is_dot c = eqb (code c) 46

unfoldable has_dot : String → Bool
has_dot [] = false
has_dot (c ∷ s) = is_dot c || has_dot s

-- A text up to its last dot, if it has one
unfoldable before_dot : String → String
unfolding has_dot
before_dot [] = ""
before_dot (c ∷ s) =
    let rest = before_dot s in if has_dot s then c ∷ rest else if is_dot c then "" else c ∷ s

-- `os.path.splitext(name)[0]`: dots at the start belong to the name.
unfoldable pub root_of : String → String
unfolding before_dot
root_of [] = ""
root_of (c ∷ s) = let rest = root_of s in if is_dot c then c ∷ rest else before_dot (c ∷ s)

-- os.path.basename
unfoldable pub basename : FilePath → String
basename List.[] = ""
basename (List.◌∷◌ p List.[]) = p
basename (List.◌∷◌ p (List.◌∷◌ q path)) = basename (List.◌∷◌ q path)

abbrev pub iso_path : FilePath → String → FilePath
iso_path install_dir name = install_dir ++ List.◌∷◌ "iso" (List.◌∷◌ name List.[])

-- backup_iso, of a file that is there; the copy has the content of the iso, as copy_image gives it.
unfoldable pub backup_iso : FilePath → FilePath → Files → Files
unfolding root_of basename
backup_iso install_dir iso files =
    let backup = iso_path install_dir (String.◌++◌ (root_of (basename iso)) ".iso") in
    if is_none (read backup files)
    then (elim (text_of (read iso files)) [ none ↦ files | some s ↦ write_to_file backup s files ])
    else files

-- fetch_image, for what requests.get of the URL gives: an exception, or the body of a reply with the
-- status 200, or nothing
unfoldable pub fetch_image : Result (Option String) → FilePath → Files → Result (Unit {0}) × Files
fetch_image (err e) dst files = (err e, files)
fetch_image (ok none) dst files = (ok tt, files)
fetch_image (ok (some body)) dst files = (ok tt, write_to_file dst body files)

-- ensure_osimage. It calls copycds.create with four arguments, where create takes three.
unfoldable pub ensure_osimage :
    Result (Option String) → FilePath → String → Files → Result (Unit {0}) × Files
unfolding fetch_image
ensure_osimage reply install_dir iso_name files =
    let dst = iso_path install_dir iso_name in
    if is_none (read dst files)
    then (let (r, files') = fetch_image reply dst files in
        elim r [ err e ↦ (err e, files') | ok _ ↦ (err type_error, files') ])
    else (ok tt, files)
