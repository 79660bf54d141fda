-- ===== src/Petitboot.antt =====
-- Boot files for petitboot: class Petitboot of xcat3/plugins/boot/petitboot.py, with the paths of
-- xcat3/plugins/utils.py. `/install` on the HTTP server is the directory `install_dir`.
use xcat.Prelude.{
  ◌≡◌, false, not, ◌&&◌, String, Option, some, [], ◌∷◌, ◌++◌, Dict, arith, inl, inr, Bool-cases,
  if◌then◌else◌,
}
use xcat.Db.{OsImage, file_not_found, Result, ok, err}
use xcat.Ssh.Texts.{concat}
use xcat.Pxe.Tree.{
  FilePath, Files, System, exists, file, read, same_path, same_path_refl, write_to_file,
  read-write_to_file, unlink, read-remove_where, removed-write,
}
use xcat.Pxe.{BootNode, get_mirror}

-- CONF.deploy.install_dir, CONF.conductor.host_ip and the text of petitboot.template for its options
pub record Petit : Type 0 where
  pub install_dir : FilePath
  pub host_ip : String
  pub system : System
  pub render : Dict String → String

-- CONFIG_DIR and _get_config_path
abbrev pub config_path : Petit → BootNode → FilePath
config_path conf node = conf.install_dir ++ "boot" ∷ node.name ∷ []

-- _get_config_url
abbrev pub get_config_url : Petit → BootNode → String
get_config_url conf node = concat ("http://" ∷ conf.host_ip ∷ "/install/boot/" ∷ node.name ∷ [])

abbrev pub get_http_root_for_osimage : Petit → OsImage → FilePath
get_http_root_for_osimage conf image = conf.install_dir ++ get_mirror image

abbrev pub get_http_url_for_osimage : Petit → OsImage → String
get_http_url_for_osimage conf image =
    concat
      ("http://" ∷ conf.host_ip ∷ "/install/" ∷ image.distro ∷ image.ver ∷ "/" ∷ image.arch ∷ [])

-- `opts` of build_boot_conf
abbrev pub template_opts : Petit → BootNode → String → OsImage → Dict String
template_opts conf node os_boot_str image =
    let url = get_http_url_for_osimage conf image in
    ("kernel", concat (url ∷ "/xcat/vmlinuz" ∷ []))
    ∷ ("initrd", concat (url ∷ "/xcat/initrd.img" ∷ []))
    ∷ ("host_ip", conf.host_ip)
    ∷ ("node", node.name)
    ∷ ("os_boot_str", os_boot_str)
    ∷ []

-- Petitboot._create_config
unfoldable pub create_config : Petit → BootNode → Dict String → Files → Files
create_config conf node opts = write_to_file (config_path conf node) (conf.render opts)

-- Petitboot.build_boot_conf
unfoldable pub build_conf_file :
    Petit → BootNode → String → OsImage → Files → Result (Unit {0}) × Files
unfolding create_config
build_conf_file conf node os_boot_str image files =
    let root = get_http_root_for_osimage conf image in
    if not (exists (root ++ "xcat" ∷ "vmlinuz" ∷ []) files)
    then (err file_not_found, files)
    else if not (exists (root ++ "xcat" ∷ "initrd.img" ∷ []) files)
    then (err file_not_found, files)
    else (ok tt, create_config conf node (template_opts conf node os_boot_str image) files)

-- Petitboot.clean
unfoldable pub remove_config : Petit → BootNode → Files → Files
remove_config conf node = unlink conf.system (config_path conf node)

-- Petitboot.continue_deploy, where `set_boot_device` is that of the control plugin of the node, if
-- the plugin map has one, and `W` the state that it changes
unfoldable pub boot_from_disk :
    {W : Type 0}
    → Result (String → W → Result (Unit {0}) × W)
    → Petit
    → BootNode
    → Files
    → W
    → Result (Unit {0}) × (Files × W)
boot_from_disk control conf node files w =
    let written = write_to_file (config_path conf node) "#boot" files in
    elim control [
      | err e ↦ (err e, (written, w))
      | ok set_boot_device ↦ let (r, w') = set_boot_device "disk" w in (r, (written, w'))
    ]

-- Petitboot.gen_dhcp_opts: the addresses, and the options that are texts
unfoldable pub petit_dhcp_opts : Petit → BootNode → (Option String × Option String) × Dict String
petit_dhcp_opts conf node = (
  (node.mac, node.ip),
  ("hostname", node.name)
      ∷ ("209", get_config_url conf node)
      ∷ ("66", conf.host_ip)
      ∷ ("12", node.name)
      ∷ ("15", node.name)
      ∷ [],
)

-- A cleaning leaves at every path that the system lets go what it leaves where no configuration was built.
remove_config-build_conf_file :
    (conf : Petit) (node : BootNode) (os_boot_str : String) (image : OsImage) (files : Files)
    (q : FilePath)
    → conf.system.keeps q ≡ false
    → read q (remove_config conf node (build_conf_file conf node os_boot_str image files).1)
      ≡ read q (remove_config conf node files)
unfolding remove_config build_conf_file create_config unlink
remove_config-build_conf_file conf node os_boot_str image files q lets =
    let path = config_path conf node in
    let text = conf.render (template_opts conf node os_boot_str image) in
    elim (Bool-cases (same_path path q)) [
      | inl same ↦ ground (
        arith,
        same,
        lets,
        read-remove_where (λ p. same_path path p && not (conf.system.keeps p)) q files,
        read-remove_where (λ p. same_path path p && not (conf.system.keeps p)) q
            (write_to_file path text files),
      )
      | inr differs ↦ ground (
        arith,
        differs,
        lets,
        read-remove_where (λ p. same_path path p && not (conf.system.keeps p)) q files,
        read-remove_where (λ p. same_path path p && not (conf.system.keeps p)) q
            (write_to_file path text files),
        removed-write (same_path path) path q text files (same_path_refl path) differs,
      )
    ]

-- The node boots from its disk afterwards, whether its control plugin could be told or not.
boot_from_disk-written :
    {W : Type 0} (control : Result (String → W → Result (Unit {0}) × W)) (conf : Petit)
    (node : BootNode) (files : Files) (w : W)
    → read (config_path conf node) (boot_from_disk control conf node files w).1.0
      ≡ some (file "#boot")
unfolding boot_from_disk
boot_from_disk-written (err e) conf node files w =
    read-write_to_file (config_path conf node) "#boot" files
boot_from_disk-written (ok set_boot_device) conf node files w =
    read-write_to_file (config_path conf node) "#boot" files
