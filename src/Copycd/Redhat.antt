-- ===== src/Copycd/Redhat.antt =====
-- Red Hat media: class RedhatImage of xcat3/copycd/redhat.py.
pub mod Products
use xcat.Prelude.{
  not, Bool, true, false, ◌&&◌, String, ◌==◌, Option, none, some, List, [], ◌∷◌, ◌++◌,
  if◌then◌else◌, is_none,
}
use xcat.Db.{
  Error, io_error, type_error, index_error, value_error, unbound_local_error, unexpected_error,
  file_not_found, Result, ok, err,
}
use xcat.Conductor.{bind}
use xcat.Ssh.Texts.{is_part}
use xcat.Pxe.Tree.{FilePath, Files, Entry, file, link, relative_link, exists, read}
use xcat.Copycd.{DistInfo, ImageClass}
use xcat.Copycd.Texts.{strip, split_dashes, words, lines, line_at, after_line}
use xcat.Copycd.Redhat.Products.{product_of}

-- The text of a file that can be opened.
abbrev pub text_of : Option Entry → Option String
text_of none = none
text_of (some (file s)) = some s
text_of (some (link p)) = none
text_of (some (relative_link p)) = none

-- `parts[4]` and `parts[5]`
abbrev fifth : List String → Option String
fifth (a ∷ b ∷ c ∷ d ∷ e ∷ parts) = some e
fifth _ = none

abbrev sixth : List String → Option String
sixth (a ∷ b ∷ c ∷ d ∷ e ∷ f ∷ parts) = some f
sixth _ = none

abbrev second : List String → Option String
second (a ∷ b ∷ parts) = some b
second _ = none

abbrev has_variant : List String → Bool
has_variant [] = false
has_variant (l ∷ ls) =
    let rest = has_variant ls in if is_part "variant = ComputeNode" l then true else rest

-- The product and the version of a description; `product` is not bound for a short one.
unfoldable pub described : List String → Result (String × String)
described parts = elim (fifth parts) [
  | none ↦ err unbound_local_error
  | some v ↦ elim (sixth parts) [
    | none ↦ ok ("rhels", v)
    | some w ↦ if is_part "Pegas" v then ok ("rhels-pegas", w) else ok ("rhels", v)
  ]
]

-- RedhatImage._parse_enterprise_info. The text "rhelhpc" has no place for `parts[4]`, so that the
-- line of a compute node raises.
unfoldable pub parse_enterprise_info : FilePath → List String → Files → Result (String × String)
unfolding described
parse_enterprise_info mnt_dir parts files =
    elim (text_of (read (mnt_dir ++ ".treeinfo" ∷ []) files)) [
      | none ↦ err io_error
      | some t ↦
          if has_variant (lines t)
          then err (if is_none (fifth parts) then index_error else type_error)
          else described parts
    ]

-- `product, version = temp.split('-')`
unfoldable pub unpacked : List String → Result (String × String)
unpacked (p ∷ v ∷ []) = ok (p, v)
unpacked _ = err value_error

-- `product, version`, or none where the description is of no known product
unfoldable pub product_and_version :
    FilePath → String → String → Files → Result (Option (String × String))
unfolding unpacked parse_enterprise_info
product_and_version mnt_dir id desc files = elim (product_of id) [
  | some temp ↦ bind (unpacked (split_dashes temp)) λ pv. ok (some pv)
  | none ↦
      if is_part "Red Hat Enterprise Linux" desc
      then (bind (parse_enterprise_info mnt_dir (words desc) files) λ pv. ok (some pv))
      else if is_part "IBM_PowerKVM" desc
      then (elim (second (words desc)) [ none ↦ err index_error | some v ↦ ok (some ("pkvm", v)) ])
      else ok none
]

-- The arch as the database has it.
abbrev pub normalized_arch : String → String
normalized_arch arch =
    if arch == "ppc" then "ppc64" else if is_part "i.86" arch then "x86" else arch

-- RedhatImage.parse_info
unfoldable pub parse_info : FilePath → Files → Result (Option DistInfo)
unfolding product_and_version
parse_info mnt_dir files = elim (text_of (read (mnt_dir ++ ".discinfo" ∷ []) files)) [
  | none ↦ ok none
  | some t ↦
      let after_id = after_line (lines t) in
      let arch = strip (line_at (after_line after_id)) in
      bind
        (product_and_version mnt_dir (strip (line_at (lines t))) (strip (line_at after_id)) files)
        λ pv. ok (elim pv [
          | none ↦ none
          | some (p, v) ↦ some (record { product = p; version = v; arch = normalized_arch arch })
        ])
]

-- The file of an architecture, which has to be there.
unfoldable pub boot_file : FilePath → FilePath → FilePath → String → Files → Result FilePath
boot_file dist_path x86_64 ppc64le arch files =
    let found : FilePath → Result FilePath =
      λ path. if not (exists path files) then err file_not_found else ok path in
    if arch == "x86_64"
    then found (dist_path ++ x86_64)
    else if arch == "ppc64le"
    then found (dist_path ++ ppc64le)
    else err unexpected_error

-- RedhatImage._get_kernel_path
unfoldable pub get_kernel_path : FilePath → String → Files → Result FilePath
unfolding boot_file
get_kernel_path dist_path =
    boot_file dist_path ("images" ∷ "pxeboot" ∷ "vmlinuz" ∷ []) ("ppc" ∷ "ppc64" ∷ "vmlinuz" ∷ [])

-- RedhatImage._get_initrd_path
unfoldable pub get_initrd_path : FilePath → String → Files → Result FilePath
unfolding boot_file
get_initrd_path dist_path =
    boot_file dist_path ("images" ∷ "pxeboot" ∷ "initrd.img" ∷ [])
      ("ppc" ∷ "ppc64" ∷ "initrd.img" ∷ [])

abbrev pub redhat : ImageClass
redhat = record {
  parse_info = parse_info;
  get_kernel_path = get_kernel_path;
  get_initrd_path = get_initrd_path;
}
