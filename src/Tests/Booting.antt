-- ===== src/Tests/Booting.antt =====
-- One node with a card, and an image whose kernel and initrd are there.
use xcat.Prelude.{false, ◌≡◌, refl, none, some, [], ◌∷◌, ◌++◌}
use xcat.Db.{OsImage, ok}
use xcat.Ssh.Texts.{concat, replace, lower}
use xcat.Pxe.Tree.{exists, exists_within, FilePath, Files, file, read}
use xcat.Pxe.{
  BootNode, Settings, get_mac_path, get_primary_mac_address, get_config_path, link_mac_configs,
  build_boot_conf, clean,
}
use xcat.Pxe.Clean.{clean-build_boot_conf, config_text}

abbrev pub settings : Settings
settings = record {
  config_dir = "tftpboot" ∷ "pxelinux.cfg" ∷ [];
  tftp_dir = "tftpboot" ∷ [];
  host_ip = "10.0.0.1";
  system = record { refuses = λ p. false; keeps = λ p. false };
  render = λ kernel initrd opts. "boot";
}

abbrev pub booted : BootNode
booted = record {
  name = "a";
  mac = some "52:54:00:AA";
  ip = some "10.0.0.2";
  nics = (("mac", some "52:54:00:AA") ∷ ("primary", some "True") ∷ []) ∷ [];
}

abbrev ubuntu : OsImage
ubuntu = record {
  id = 1;
  name = "u";
  distro = "ubuntu";
  ver = "16.04";
  arch = "x86_64";
  orig_name = none;
  profile = none;
  provmethod = none;
  rootfstype = none;
}

abbrev image_dir : FilePath
image_dir = "tftpboot" ∷ "images" ∷ "ubuntu16.04" ∷ "x86_64" ∷ []

abbrev copied : Files
copied = (image_dir ++ "vmlinuz" ∷ [], file "k") ∷ (image_dir ++ "initrd.img" ∷ [], file "i") ∷ []

abbrev pub mac_file : FilePath
mac_file = "tftpboot" ∷ "pxelinux.cfg" ∷ "01-52-54-00-aa" ∷ []

pub has_mac : get_mac_path settings booted ≡ ok mac_file
unfolding get_mac_path get_primary_mac_address concat replace lower
has_mac = refl

built : (build_boot_conf settings booted "quiet" ubuntu copied).0 ≡ ok tt
unfolding build_boot_conf link_mac_configs get_mac_path get_primary_mac_address concat read exists
    exists_within
built = refl

clean-build_boot_conf_example :
    (read
        (get_config_path settings booted)
        (build_boot_conf settings booted "quiet" ubuntu copied).1
      ≡ some (file (config_text settings booted mac_file has_mac "quiet")))
    × (read mac_file
          (clean settings booted (build_boot_conf settings booted "quiet" ubuntu copied).1).1
        ≡ read mac_file (clean settings booted copied).1)
clean-build_boot_conf_example =
    clean-build_boot_conf settings booted mac_file has_mac "quiet" ubuntu copied mac_file refl built
