-- ===== src/Tests/Media.antt =====
-- An Ubuntu medium that is copied, uploaded and booted, and the copy of an iso.
use mathlib.Core.Logic.{◌↔◌}
use xcat.Prelude.{
  ℕ, ◌≡◌, ◌≤◌, refl, false, true, leb, if◌then◌else◌, arith, String, none, some, [], ◌∷◌, ◌++◌,
  take, drop,
}
use xcat.Db.Tables.{create, get_image_by_disto_info}
use xcat.Db.{OsImage, session_for_write, type_error, ok, err}
use xcat.Ssh.Texts.{concat, is_part}
use xcat.Pxe.Tree.{exists, exists_within, FilePath, file, read, write_to_file, same_path}
use xcat.Copycd.{DistInfo, Disk, Machine, Dirs, cpio, copycd, netboot_target, upload}
use xcat.Copycd.Texts.{strip, split_blanks, split_dashes, lines}
use xcat.Copycd.Ubuntu.{ubuntu, parse_info, info_of, get_kernel_path, get_initrd_path}
use xcat.Copycd.Redhat as Redhat
use xcat.Copycd.Redhat.{boot_file, product_and_version, unpacked, parse_enterprise_info, described}
use xcat.Copycd.Redhat.Products.{product_of}
use xcat.Copycd.Upload.{Uploaded, upload-Uploaded}
use xcat.Copycd.Cache.{
  Sendfile, block_size, copy_image, iso_path, backup_iso, root_of, basename, ensure_osimage,
}
use xcat.Copycd.Cache.Laws.{copy_image-full, all_full, ensure_osimage-twice}
use xcat.Tests.{rolling_back, rolling_back_lem, tables}

abbrev dirs : Dirs
dirs = record {
  install_dir = "install" ∷ [];
  tftp_dir = "tftpboot" ∷ [];
  system = record { refuses = λ p. false; keeps = λ p. false };
}

-- A machine whose cpio copies a kernel and an initrd.
abbrev machine : Machine
machine = record {
  cpio = λ mnt dist files. (
    some 0,
    (dist ++ "install" ∷ "vmlinuz" ∷ [], file "k")
        ∷ (
          dist ++ "install" ∷ "netboot" ∷ "ubuntu-installer" ∷ "amd64" ∷ "initrd.gz" ∷ [],
          file "i",
        )
        ∷ files,
  );
  mount = λ iso mnt s. (ok tt, s);
  umount = λ mnt s. (ok tt, s);
  rmtree = λ mnt files. files;
}

abbrev mnt : FilePath
mnt = "mnt" ∷ []

abbrev lts : String
lts = "Ubuntu-Server 16.04.1 LTS \"Xenial Xerus\" - Release amd64 (20160719)"

abbrev short_term : String
short_term = "Ubuntu-Server 16.10 \"Yakkety Yak\" - Release amd64 (20161012.1)"

abbrev xenial : DistInfo
xenial = record { product = "Ubuntu-Server"; version = "16.04.1"; arch = "x86_64" }

-- A release without long-term support gives its date for an arch.
lts-parsed :
    (parse_info mnt ((mnt ++ ".disk" ∷ "info" ∷ [], file lts) ∷ []) ≡ ok (some xenial))
    × (parse_info mnt ((mnt ++ ".disk" ∷ "info" ∷ [], file short_term) ∷ [])
        ≡ ok
            (some (record { product = "Ubuntu-Server"; version = "16.10"; arch = "(20161012.1)" })))
unfolding parse_info info_of split_blanks read
lts-parsed = (refl, refl)

centos :
    Redhat.parse_info mnt
      ((mnt ++ ".discinfo" ∷ [], file "1450147276.351714\nCentOS\nppc64le\n") ∷ [])
    ≡ ok (some (record { product = "centos"; version = "7.2"; arch = "ppc64le" }))
unfolding Redhat.parse_info product_and_version unpacked product_of strip split_dashes lines is_part
    read
centos = refl

abbrev empty_disk : Disk
empty_disk = record { files = []; db = tables }

abbrev xenial_image : OsImage
xenial_image = record {
  id = 1;
  name = "u";
  distro = "Ubuntu-Server";
  ver = "16.04.1";
  arch = "x86_64";
  orig_name = none;
  profile = none;
  provmethod = none;
  rootfstype = none;
}

copied : (copycd machine dirs ubuntu mnt xenial empty_disk).0 ≡ ok tt
unfolding copycd cpio netboot_target get_kernel_path get_initrd_path boot_file concat read exists
    exists_within
copied = refl

abbrev new_row : OsImage
new_row = record xenial_image {
  id = 5;
  name = "Ubuntu-Server16.04.1-x86_64";
  orig_name = some "x.iso";
}

uploaded : (upload rolling_back 5 none xenial "x.iso" tables).0 ≡ ok new_row
unfolding upload create get_image_by_disto_info session_for_write concat
uploaded = refl

upload-Uploaded_example :
    Uploaded none xenial "x.iso" (upload rolling_back 5 none xenial "x.iso" tables).1
upload-Uploaded_example =
    upload-Uploaded rolling_back rolling_back_lem 5 none xenial "x.iso" tables new_row uploaded

-- A sendfile that copies two bytes at most.
abbrev halting : Sendfile ℕ
halting source offset count = take (if leb count 2 then count else 2) (drop offset source)

halting-short : (count : ℕ) → (if leb count 2 then count else 2) ≤ count
halting-short count = ground arith

copy_image-full_example :
    (copy_image halting (7 ∷ 8 ∷ 9 ∷ []) ≡ 7 ∷ 8 ∷ 9 ∷ [])
    ↔ (all_full halting block_size 4 (7 ∷ 8 ∷ 9 ∷ []) 0 ≡ true)
copy_image-full_example =
    copy_image-full halting
      (λ source offset count. (if leb count 2 then count else 2, halting-short count, refl))
      (7 ∷ 8 ∷ 9 ∷ [])

backed_up :
    backup_iso ("install" ∷ []) ("home" ∷ "x.ISO" ∷ []) (("home" ∷ "x.ISO" ∷ [], file "i") ∷ [])
    ≡ write_to_file ("install" ∷ "iso" ∷ "x.iso" ∷ []) "i" (("home" ∷ "x.ISO" ∷ [], file "i") ∷ [])
unfolding backup_iso root_of basename read
backed_up = refl

ensure_osimage-twice_example :
    let first = ensure_osimage (ok (some "i")) ("install" ∷ []) "x.iso" [] in
    (first.0 ≡ err type_error)
    × (ensure_osimage (ok none) ("install" ∷ []) "x.iso" first.1 ≡ (ok tt, first.1))
    × (read (iso_path ("install" ∷ []) "x.iso") first.1 ≡ some (file "i"))
    × ((q : FilePath)
        → same_path (iso_path ("install" ∷ []) "x.iso") q ≡ false
        → read q first.1 ≡ read q [])
ensure_osimage-twice_example =
    ensure_osimage-twice ("install" ∷ []) "x.iso" "i" [] (unfold read in refl) (ok none)
