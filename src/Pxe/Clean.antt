-- ===== src/Pxe/Clean.antt =====
-- Cleaning a node removes what was built for it: build_boot_conf, continue_deploy and clean of
-- xcat3/plugins/boot/pxe.py.
use xcat.Prelude.{
  inl, inr, Bool-cases, ◌∙◌, ◌≡◌, Bool, true, false, not, ◌&&◌, ◌||◌, String, none, some, [], ◌∷◌,
  ◌++◌, arith, if◌then◌else◌,
}
use xcat.Db.{OsImage, ok}
use xcat.Pxe.Tree.{
  FilePath, Files, same_path, is_under, read, write_to_file, create_link, unlink, rmtree,
  same_path_refl, is_under-append, file, link, read-write_to_file, create_link-kept,
  read-remove_where, removed-write, removed-create_link,
}
use xcat.Pxe.{
  BootNode, Settings, boot_opts, get_tftp_root_for_osimage, get_tftp_root_for_node, config_root,
  get_config_path, get_mac_path, link_mac_configs, build_files, build_boot_conf, clean,
}

module _ (conf : Settings) (node : BootNode) (mac_path : FilePath)
    (has_mac : get_mac_path conf node ≡ ok mac_path) where
  -- The paths that a cleaning is to remove
  abbrev pub is_cleaned : FilePath → Bool
  is_cleaned q =
      same_path mac_path q
      || is_under (get_tftp_root_for_node conf node) q
      || is_under (config_root conf node) q

  pub read-clean :
      (q : FilePath) (files : Files)
      → read q (clean conf node files).1
        ≡ (if is_cleaned q && not (conf.system.keeps q) then none else read q files)
  unfolding clean unlink rmtree
  read-clean q files = ground (
    arith,
    has_mac,
    read-remove_where (λ p. same_path mac_path p && not (conf.system.keeps p)) q files,
    read-remove_where
        (λ p. is_under (get_tftp_root_for_node conf node) p && not (conf.system.keeps p)) q
        (unlink conf.system mac_path files),
    read-remove_where (λ p. is_under (config_root conf node) p && not (conf.system.keeps p)) q
        (rmtree conf.system (get_tftp_root_for_node conf node) (unlink conf.system mac_path files)),
  )

  root_file-cleaned :
      (name : String) → is_cleaned (get_tftp_root_for_node conf node ++ name ∷ []) ≡ true
  root_file-cleaned name =
      ground (arith, is_under-append (get_tftp_root_for_node conf node) (name ∷ []))

  config_path-cleaned : is_cleaned (get_config_path conf node) ≡ true
  config_path-cleaned = ground (arith, is_under-append (config_root conf node) ("config" ∷ []))

  build_files-unseen :
      (os_boot_str : String) (kernel initrd q : FilePath) (files : Files)
      → is_cleaned q ≡ false
      → read q (build_files conf node os_boot_str kernel initrd files) ≡ read q files
  unfolding build_files
  build_files-unseen os_boot_str kernel initrd q files h =
      let root = get_tftp_root_for_node conf node in
      let with_kernel = create_link conf.system (link kernel) (root ++ "vmlinuz" ∷ []) files in
      let with_initrd =
        create_link conf.system (link initrd) (root ++ "initrd.img" ∷ []) with_kernel in
      removed-write is_cleaned (get_config_path conf node) q _ with_initrd config_path-cleaned h
      ∙ removed-create_link conf.system is_cleaned (link initrd) (root ++ "initrd.img" ∷ []) q
          with_kernel (root_file-cleaned "initrd.img") h
      ∙ removed-create_link conf.system is_cleaned (link kernel) (root ++ "vmlinuz" ∷ []) q files
          (root_file-cleaned "vmlinuz") h

  link_mac_configs-unseen :
      (q : FilePath) (files : Files)
      → is_cleaned q ≡ false
      → read q (link_mac_configs conf node files).1 ≡ read q files
  unfolding link_mac_configs
  link_mac_configs-unseen q files h =
      let own : is_cleaned mac_path ≡ true = ground (arith, same_path_refl mac_path) in
      ground (
        arith,
        has_mac,
        removed-create_link conf.system is_cleaned (link (get_config_path conf node)) mac_path q
            files own h,
      )

  build_boot_conf-unseen :
      (os_boot_str : String) (image : OsImage) (q : FilePath) (files : Files)
      → is_cleaned q ≡ false
      → read q (build_boot_conf conf node os_boot_str image files).1 ≡ read q files
  unfolding build_boot_conf
  build_boot_conf-unseen os_boot_str image q files h =
      let kernel = get_tftp_root_for_osimage conf image ++ "vmlinuz" ∷ [] in
      let initrd = get_tftp_root_for_osimage conf image ++ "initrd.img" ∷ [] in
      ground (
        arith,
        build_files-unseen os_boot_str kernel initrd q files h,
        link_mac_configs-unseen q (build_files conf node os_boot_str kernel initrd files) h,
      )

  -- The text that build_boot_conf writes
  abbrev pub config_text : String → String
  config_text os_boot_str =
      conf.render (get_tftp_root_for_node conf node ++ "vmlinuz" ∷ [])
        (get_tftp_root_for_node conf node ++ "initrd.img" ∷ []) (boot_opts conf node os_boot_str)

  built-config :
      (os_boot_str : String) (image : OsImage) (files : Files)
      → (build_boot_conf conf node os_boot_str image files).0 ≡ ok tt
      → read (get_config_path conf node) (build_boot_conf conf node os_boot_str image files).1
        ≡ some (file (config_text os_boot_str))
  unfolding build_boot_conf link_mac_configs build_files
  built-config os_boot_str image files h =
      let kernel = get_tftp_root_for_osimage conf image ++ "vmlinuz" ∷ [] in
      let initrd = get_tftp_root_for_osimage conf image ++ "initrd.img" ∷ [] in
      let with_kernel =
        create_link conf.system (link kernel) (get_tftp_root_for_node conf node ++ "vmlinuz" ∷ [])
          files in
      let with_initrd =
        create_link conf.system (link initrd)
          (get_tftp_root_for_node conf node ++ "initrd.img" ∷ []) with_kernel in
      let path = get_config_path conf node in
      let written = read-write_to_file path (config_text os_boot_str) with_initrd in
      ground (
        arith,
        h,
        has_mac,
        create_link-kept conf.system (link path) mac_path path
            (write_to_file path (config_text os_boot_str) with_initrd)
            (file (config_text os_boot_str)) written,
      )

  -- For a node with a primary card that has an address, if build_boot_conf returns, the
  -- configuration file of the node holds the text of the template, and clean afterwards leaves at
  -- every path that the system lets go what it leaves where nothing was built.
  pub clean-build_boot_conf :
      (os_boot_str : String) (image : OsImage) (files : Files) (q : FilePath)
      → conf.system.keeps q ≡ false
      → (build_boot_conf conf node os_boot_str image files).0 ≡ ok tt
      → (read (get_config_path conf node) (build_boot_conf conf node os_boot_str image files).1
          ≡ some (file (config_text os_boot_str)))
        × (read q (clean conf node (build_boot_conf conf node os_boot_str image files).1).1
            ≡ read q (clean conf node files).1)
  clean-build_boot_conf os_boot_str image files q lets h = (
    built-config os_boot_str image files h,
    elim (Bool-cases (is_cleaned q)) [
      | inl gone ↦ ground (
        arith,
        gone,
        lets,
        read-clean q files,
        read-clean q (build_boot_conf conf node os_boot_str image files).1,
      )
      | inr stays ↦ ground (
        arith,
        stays,
        lets,
        read-clean q files,
        read-clean q (build_boot_conf conf node os_boot_str image files).1,
        build_boot_conf-unseen os_boot_str image q files stays,
      )
    ],
  )
