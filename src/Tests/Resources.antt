-- ===== src/Tests/Resources.antt =====
-- A PATCH of a network, and the deletion of an image.
use xcat.Prelude.{
  false, inl, inr, Bool-cases, ◌≡◌, refl, eqb, ◌==◌, none, some, List, [], ◌∷◌, arith,
}
use xcat.Db.{Network, OsImage, Db, ok, session_for_write}
use xcat.Db.Tables as Tables
use xcat.Db.Tables.{IsTable, networks, number, get_by_key}
use xcat.Db.Tables.Keys.{IsKeyed}
use xcat.Api.Patch.{Patch, prune, stays}
use xcat.Api.Resources.{
  network, Apply, patch, save, patched_document, update_changed_fields, write_changes,
}
use xcat.Api.Resources.Laws.{network-Lawful, network-Keeps, Patched, patch-Patched}
use xcat.Api.Resources.Images.{delete_image, Deleted, delete_image-Deleted}
use xcat.Copycd.{Dirs, Disk}
use xcat.Pxe.Tree.{file}
use xcat.Api.Resources.Images.{destroy_osimages}
use xcat.Tests.{rolling_back, rolling_back_lem, tables, lan}

networks-IsTable : IsTable networks
networks-IsTable = record { plain = refl; rows-store = λ rows db. refl }

abbrev masked : Network
masked = record lan { netmask = some "255.255.255.0" }

abbrev with_mask : Db
with_mask = record tables { networks = masked ∷ [] }

with_mask-IsKeyed : IsKeyed networks with_mask
with_mask-IsKeyed = record {
  ids = λ i. elim (Bool-cases (eqb 1 i)) [
    | inl same ↦ rw same (omega arith)
    | inr differs ↦ rw differs (omega arith)
  ];
  keys = λ k. elim (Bool-cases ("lan" == k)) [
    | inl same ↦ rw same (omega arith)
    | inr differs ↦ rw differs (omega arith)
  ];
}

-- A package that puts the gateway of an operation in front.
abbrev setting : Apply
setting doc [] = ok doc
setting doc (p ∷ ps) = ok (("gateway", p.value) ∷ doc)

abbrev new_gateway : List Patch
new_gateway = record { op = "replace"; path = "/gateway"; value = some "10.0.0.254" } ∷ []

abbrev routed : Network
routed = record masked { gateway = some "10.0.0.254" }

patched : (patch network rolling_back setting "lan" new_gateway with_mask).0 ≡ ok routed
unfolding patch save Tables.update Tables.do_update session_for_write patched_document
    update_changed_fields write_changes prune stays get_by_key
patched = refl

patch-Patched_example :
    Patched network setting "lan" new_gateway with_mask
      (patch network rolling_back setting "lan" new_gateway with_mask).1
      routed
patch-Patched_example =
    patch-Patched network networks-IsTable network-Lawful network-Keeps rolling_back
      rolling_back_lem setting "lan" new_gateway with_mask routed with_mask-IsKeyed patched

abbrev old_image : OsImage
old_image = record {
  id = 9;
  name = "u";
  distro = "Ubuntu";
  ver = "16";
  arch = "x86_64";
  orig_name = some "u.iso";
  profile = none;
  provmethod = none;
  rootfstype = none;
}

abbrev disk : Disk
disk = record {
  files = ("install" ∷ "iso" ∷ "u.iso" ∷ [], file "i") ∷ ("install" ∷ "post" ∷ [], file "p") ∷ [];
  db = record tables { images = old_image ∷ [] };
}

abbrev dirs : Dirs
dirs = record {
  install_dir = "install" ∷ [];
  tftp_dir = "tftpboot" ∷ [];
  system = record { refuses = λ p. false; keeps = λ p. false };
}

deleted : (delete_image rolling_back dirs "conductor" (λ db. db.services) "u" disk).0.0 ≡ ok tt
unfolding delete_image destroy_osimages Tables.destroy session_for_write get_by_key
deleted = refl

delete_image-Deleted_example :
    Deleted dirs "u" old_image disk
      (delete_image rolling_back dirs "conductor" (λ db. db.services) "u" disk).1
delete_image-Deleted_example =
    delete_image-Deleted rolling_back rolling_back_lem dirs "conductor" (λ db. db.services) "u" disk
      old_image refl deleted
