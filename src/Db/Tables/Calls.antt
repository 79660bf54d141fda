-- ===== src/Db/Tables/Calls.antt =====
-- The calls of class Connection on networks, images and passwords, xcat3/db/sqlalchemy/api.py, as
-- the operations of Db.Tables on the three tables.
use xcat.Prelude.{ℕ, String}
use xcat.Db.{Network, OsImage, Passwd, Action, Engine}
use xcat.Db.Tables.{
  Identity, get_by_id, get_by_key, create, destroy, update, networks, images, passwds,
}

abbrev get_network_by_id : ℕ → Action Network
get_network_by_id = get_by_id networks

abbrev get_network_by_name : String → Action Network
get_network_by_name = get_by_key networks

abbrev create_network : Engine → Network → Action Network
create_network = create networks

abbrev destroy_network : Engine → String → Action (Unit {0})
destroy_network = destroy networks

abbrev update_network : Engine → Identity → (Network → Network) → Action Network
update_network = update networks

abbrev get_image_by_id : ℕ → Action OsImage
get_image_by_id = get_by_id images

abbrev get_image_by_name : String → Action OsImage
get_image_by_name = get_by_key images

abbrev create_image : Engine → OsImage → Action OsImage
create_image = create images

abbrev destroy_image : Engine → String → Action (Unit {0})
destroy_image = destroy images

abbrev update_image : Engine → Identity → (OsImage → OsImage) → Action OsImage
update_image = update images

abbrev get_passwd_by_id : ℕ → Action Passwd
get_passwd_by_id = get_by_id passwds

abbrev get_passwd_by_key : String → Action Passwd
get_passwd_by_key = get_by_key passwds

abbrev create_passwd : Engine → Passwd → Action Passwd
create_passwd = create passwds

abbrev destroy_passwd : Engine → String → Action (Unit {0})
destroy_passwd = destroy passwds

abbrev update_passwd : Engine → Identity → (Passwd → Passwd) → Action Passwd
update_passwd = update passwds
