-- ===== src/Pxe.antt =====
-- Boot files over PXE: class PXEBoot of xcat3/plugins/boot/pxe.py, with the paths of
-- xcat3/plugins/utils.py and the file operations of xcat3/common/utils.py.
pub mod Tree
pub mod Clean
use xcat.Prelude.{
  ℕ, Bool, true, false, not, String, ◌==◌, Option, none, some, List, [], ◌∷◌, ◌++◌, Dict, lookup,
  if◌then◌else◌, is_none,
}
use xcat.Db.{OsImage, Error, attribute_error, key_error, file_not_found, Result, ok, err}
use xcat.Ssh.Texts.{concat, replace, lower}
use xcat.Pxe.Tree.{
  FilePath, Files, Entry, file, link, System, exists, read, write_to_file, create_link, unlink,
  rmtree,
}

-- What the plugin reads of a node; a card is a dictionary.
pub record BootNode : Type 0 where
  pub name : String
  pub mac : Option String
  pub ip : Option String
  pub nics : List (Dict (Option String))

-- CONFIG_DIR, CONF.deploy.tftp_dir, CONF.conductor.host_ip, what the system refuses, and the text that the template
-- pxe_boot.template gives for the links to a kernel and an initrd and the other options
pub record Settings : Type 0 where
  pub config_dir : FilePath
  pub tftp_dir : FilePath
  pub host_ip : String
  pub system : System
  pub render : FilePath → FilePath → Dict String → String

-- get_primary_mac_address: the address of the first card that has the key `primary`
unfoldable pub get_primary_mac_address : List (Dict (Option String)) → Result (Option String)
get_primary_mac_address [] = ok none
get_primary_mac_address (p ∷ nics) =
    let rest = get_primary_mac_address nics in
    if is_none (lookup "primary" p)
    then rest
    else elim (lookup "mac" p) [ none ↦ err key_error | some mac ↦ ok mac ]

-- get_primary_ip_address
unfoldable pub get_primary_ip_address : List (Dict (Option String)) → Option String
get_primary_ip_address [] = none
get_primary_ip_address (p ∷ nics) =
    let rest = get_primary_ip_address nics in
    if is_none (lookup "primary" p)
    then rest
    else elim (lookup "ip" p) [ none ↦ rest | some ip ↦ ip ]

-- get_mirror, as the two parts of the path
abbrev pub get_mirror : OsImage → FilePath
get_mirror image = concat (image.distro ∷ image.ver ∷ []) ∷ image.arch ∷ []

abbrev pub get_tftp_root_for_osimage : Settings → OsImage → FilePath
get_tftp_root_for_osimage conf image = conf.tftp_dir ++ "images" ∷ get_mirror image

abbrev pub get_tftp_root_for_node : Settings → BootNode → FilePath
get_tftp_root_for_node conf node = conf.tftp_dir ++ "nodes" ∷ node.name ∷ []

-- The directory of _get_config_path, and the path
abbrev pub config_root : Settings → BootNode → FilePath
config_root conf node = conf.config_dir ++ node.name ∷ []

abbrev pub get_config_path : Settings → BootNode → FilePath
get_config_path conf node = config_root conf node ++ "config" ∷ []

-- _get_mac_path; None has no method `replace`.
unfoldable pub get_mac_path : Settings → BootNode → Result FilePath
get_mac_path conf node = elim (get_primary_mac_address node.nics) [
  | err e ↦ err e
  | ok none ↦ err attribute_error
  | ok (some mac) ↦ ok (conf.config_dir ++ concat ("01-" ∷ lower (replace ":" "-" mac) ∷ []) ∷ [])
]

-- _link_mac_configs
unfoldable pub link_mac_configs : Settings → BootNode → Files → Result (Unit {0}) × Files
link_mac_configs conf node files = elim (get_mac_path conf node) [
  | err e ↦ (err e, files)
  | ok path ↦ (ok tt, create_link conf.system (link (get_config_path conf node)) path files)
]

-- `opts` of build_boot_conf, but for the paths
abbrev pub boot_opts : Settings → BootNode → String → Dict String
boot_opts conf node os_boot_str =
    ("host_ip", conf.host_ip) ∷ ("node", node.name) ∷ ("os_boot_str", os_boot_str) ∷ []

-- What build_boot_conf writes before it links the address, for the paths of a kernel and an initrd.
unfoldable pub build_files : Settings → BootNode → String → FilePath → FilePath → Files → Files
build_files conf node os_boot_str kernel initrd files =
    let root = get_tftp_root_for_node conf node in
    let with_kernel = create_link conf.system (link kernel) (root ++ "vmlinuz" ∷ []) files in
    let with_initrd =
      create_link conf.system (link initrd) (root ++ "initrd.img" ∷ []) with_kernel in
    write_to_file (get_config_path conf node)
      (conf.render (root ++ "vmlinuz" ∷ []) (root ++ "initrd.img" ∷ [])
        (boot_opts conf node os_boot_str))
      with_initrd

-- PXEBoot.build_boot_conf
unfoldable pub build_boot_conf :
    Settings → BootNode → String → OsImage → Files → Result (Unit {0}) × Files
build_boot_conf conf node os_boot_str image files =
    let kernel = get_tftp_root_for_osimage conf image ++ "vmlinuz" ∷ [] in
    let initrd = get_tftp_root_for_osimage conf image ++ "initrd.img" ∷ [] in
    if not (exists kernel files)
    then (err file_not_found, files)
    else if not (exists initrd files)
    then (err file_not_found, files)
    else link_mac_configs conf node (build_files conf node os_boot_str kernel initrd files)

-- PXEBoot.continue_deploy
pub continue_deploy : Settings → BootNode → Files → Files
continue_deploy conf node =
    write_to_file (get_config_path conf node) "DEFAULT xCAT\nLABEL xCAT\nLOCALBOOT 0\n"

-- PXEBoot.clean
unfoldable pub clean : Settings → BootNode → Files → Result (Unit {0}) × Files
clean conf node files = elim (get_mac_path conf node) [
  | err e ↦ (err e, files)
  | ok path ↦ (
    ok tt,
    rmtree conf.system (config_root conf node)
        (rmtree conf.system (get_tftp_root_for_node conf node) (unlink conf.system path files)),
  )
]

-- PXEBoot.gen_dhcp_opts: the options that are texts, and those of `67` by vendor class
pub record DhcpOpts : Type 0 where
  pub mac : Option String
  pub ip : Option String
  pub opts : Dict String
  pub opt_67 : Dict String

pub gen_dhcp_opts : Settings → BootNode → DhcpOpts
gen_dhcp_opts conf node = record {
  mac = node.mac;
  ip = node.ip;
  opts =
      ("hostname", node.name) ∷ ("66", conf.host_ip) ∷ ("12", node.name) ∷ ("15", node.name) ∷ [];
  opt_67 = ("ScaleMP", "vsmp/pxelinux.0") ∷ ("other", "pxelinux.0") ∷ [];
}
