-- ===== src/Api/Resources/Calls.antt =====
-- The handlers of the controllers of networks, images and passwords by their classes,
-- xcat3/api/controllers/v1/network.py, osimage.py and passwd.py.
use xcat.Prelude.{String, List}
use xcat.Db.{Network, OsImage, Passwd, Service, Db, Action, Engine}
use xcat.Api.Patch.{Patch}
use xcat.Api.Resources.{Apply, network, osimage, passwd, get_one, post, delete, patch, notifying}

-- The topic of the network services, and those that get_services lists
module _ (engine : Engine) (topic : String) (services : Db → List Service) where
  abbrev post_network : Network → Action (Network × List String)
  post_network row = notifying topic services (post network engine row)

  abbrev delete_network : String → Action (Unit {0} × List String)
  delete_network name = notifying topic services (delete network engine name)

  abbrev patch_network : Apply → String → List Patch → Action (Network × List String)
  patch_network apply name ps = notifying topic services (patch network engine apply name ps)

module _ (engine : Engine) where
  abbrev get_network : String → Action Network
  get_network = get_one network engine

  abbrev get_osimage : String → Action OsImage
  get_osimage = get_one osimage engine

  abbrev post_osimage : OsImage → Action OsImage
  post_osimage = post osimage engine

  abbrev patch_osimage : Apply → String → List Patch → Action OsImage
  patch_osimage = patch osimage engine

  -- CRYPT_METHODS
  module _ (methods : List String) where
    abbrev get_passwd : String → Action Passwd
    get_passwd = get_one (passwd methods) engine

    abbrev post_passwd : Passwd → Action Passwd
    post_passwd = post (passwd methods) engine

    abbrev delete_passwd : String → Action (Unit {0})
    delete_passwd = delete (passwd methods) engine

    abbrev patch_passwd : Apply → String → List Patch → Action Passwd
    patch_passwd = patch (passwd methods) engine
