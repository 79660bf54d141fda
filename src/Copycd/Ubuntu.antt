-- ===== src/Copycd/Ubuntu.antt =====
-- Ubuntu media: class UbuntuImage of xcat3/copycd/ubuntu.py.
use xcat.Prelude.{
  Bool, not, ◌||◌, String, ◌==◌, Option, none, some, List, [], ◌∷◌, ◌++◌, if◌then◌else◌,
}
use xcat.Db.{Result, ok}
use xcat.Pxe.Tree.{FilePath, Files, read}
use xcat.Copycd.{DistInfo, ImageClass}
use xcat.Copycd.Texts.{split_blanks}
use xcat.Copycd.Redhat.{text_of, boot_file}

-- `vals[0]`, `vals[1]` and `vals[7]` of eight values; with seven the arch is None.
abbrev values_of : List String → Option (String × String × String)
values_of (p ∷ v ∷ c ∷ d ∷ e ∷ f ∷ g ∷ arch ∷ vals) = some (p, v, arch)
values_of _ = none

abbrev pub arch_name : String → String
arch_name arch = if arch == "amd64" then "x86_64" else if arch == "ppc64el" then "ppc64le" else arch

abbrev is_ubuntu : String → Bool
is_ubuntu product = product == "Ubuntu" || product == "Ubuntu-Server"

unfoldable pub info_of : List String → Option DistInfo
info_of vals = elim (values_of vals) [
  | none ↦ none
  | some (p, v, arch) ↦
      if not (is_ubuntu p)
      then none
      else if arch == ""
      then none
      else some (record { product = p; version = v; arch = arch_name arch })
]

-- UbuntuImage.parse_info
unfoldable pub parse_info : FilePath → Files → Result (Option DistInfo)
unfolding info_of
parse_info mnt_dir files = elim (text_of (read (mnt_dir ++ ".disk" ∷ "info" ∷ []) files)) [
  | none ↦ ok none
  | some t ↦ ok (info_of (split_blanks t))
]

-- UbuntuImage._get_kernel_path
unfoldable pub get_kernel_path : FilePath → String → Files → Result FilePath
unfolding boot_file
get_kernel_path dist_path =
    boot_file dist_path ("install" ∷ "vmlinuz" ∷ []) ("install" ∷ "vmlinux" ∷ [])

-- UbuntuImage._get_initrd_path
unfoldable pub get_initrd_path : FilePath → String → Files → Result FilePath
unfolding boot_file
get_initrd_path dist_path =
    boot_file dist_path ("install" ∷ "netboot" ∷ "ubuntu-installer" ∷ "amd64" ∷ "initrd.gz" ∷ [])
      ("install" ∷ "initrd.gz" ∷ [])

abbrev pub ubuntu : ImageClass
ubuntu = record {
  parse_info = parse_info;
  get_kernel_path = get_kernel_path;
  get_initrd_path = get_initrd_path;
}
