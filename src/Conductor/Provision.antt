-- ===== src/Conductor/Provision.antt =====
-- ConductorManager.provision of xcat3/conductor/manager.py, with ISCDHCPService.update_opts of
-- xcat3/network/dhcp.py.
pub mod Effects
use xcat.Prelude.{
  ℕ, ◌≡◌, Bool, true, false, not, ◌&&◌, String, ◌==◌, Option, none, some, List, [], ◌∷◌, map, Dict,
  lookup, insert, eqb, write_all, if◌then◌else◌, is_none, truthy, contains, is_empty, select,
  find_where,
}
use xcat.Db.{
  OsImage, Node, Db, Error, invalid_parameter, plugin_not_found, key_error, Result, ok, err, Action,
  pure, raise, ◌>>=◌, ◌>>◌, Engine,
}
use xcat.Db.Nodes.{Changes, save_nodes}
use xcat.Db.Dhcp.{Opts, save_or_update_dhcp}
use xcat.Task.{with_task}
use xcat.Conductor.{
  Conductor, success, deploy_dhcp, deploy_nodeset, deploy_done, bind, lift, Finish, raised,
  returned, unfinished, process_nodes_worker, succeeded, succeeded_nodes, fill_result,
}

-- The interfaces of xcat3/plugins/boot/base.py and xcat3/plugins/osimage/base.py.
pub record BootPlugin : Type 0 where
  pub validate : Node → Result (Unit {0})
  pub gen_dhcp_opts : Node → Result Opts
  pub build_boot_conf : Node → String → OsImage → Result (Unit {0})
  pub continue_deploy : Node → Result (Unit {0})
  pub clean : Node → Result (Unit {0})

pub record OsPlugin : Type 0 where
  pub validate : Node → OsImage → Result (Unit {0})
  pub build_os_boot_str : Node → OsImage → Result String
  pub build_template : Node → OsImage → Result (Unit {0})
  pub clean : Node → Result (Unit {0})

-- A conductor with its plugins, the images of the database, what cd_cache.ensure_osimage does, and
-- the texts that the DHCP templates give.
pub record Deployer : Type 0 where
  pub conductor : Conductor
  pub pxe : BootPlugin
  pub petitboot : BootPlugin
  pub base : OsPlugin
  pub ubuntu : OsPlugin
  pub rhels : OsPlugin
  pub images : List OsImage
  pub ensure_osimage : OsImage → Result (Unit {0})
  pub build_supersede : Opts → Result String
  pub render : Opts → String

-- PluginMap.get_boot_plugin
unfoldable pub get_boot_plugin : Deployer → Node → Result BootPlugin
get_boot_plugin d node =
    if node.netboot == "pxe"
    then ok d.pxe
    else if node.netboot == "petitboot"
    then ok d.petitboot
    else err plugin_not_found

-- PluginMap.get_osimage_plugin of an image: os_dict, then os_map
unfoldable pub get_osimage_plugin : Deployer → OsImage → Result OsPlugin
get_osimage_plugin d image =
    if image.distro == "Ubuntu-Server"
    then ok d.ubuntu
    else if image.distro == "rhels"
    then ok d.rhels
    else err plugin_not_found

abbrev pub no_changes : Changes
no_changes = record { state = none; conductor_affinity = none; osimage_id = none }

-- `_provision` for a node and the image to deploy: the assignments to the node and the options of
-- its DHCP record.
unfoldable pub provision_work : Deployer → String → Option OsImage → Node → Result (Changes × Opts)
unfolding get_boot_plugin get_osimage_plugin
provision_work d target image node = bind (get_boot_plugin d node) λ boot.
    bind (boot.validate node) λ _. bind (boot.gen_dhcp_opts node) λ opts.
      if target == deploy_dhcp
      then ok (record no_changes { state = some (some deploy_dhcp) }, opts)
      else elim image [
        | none ↦ err key_error
        | some img ↦ bind (get_osimage_plugin d img) λ os. bind (os.validate node img) λ _.
            bind (os.build_os_boot_str node img) λ boot_str. bind (os.build_template node img) λ _.
              bind (boot.build_boot_conf node boot_str img) λ _. ok (
                record {
                  state = some (some deploy_nodeset);
                  conductor_affinity = some (some d.conductor.service_id);
                  osimage_id = some (some img.id);
                },
                opts,
              )
      ]

-- The future of such a thread, what it assigned and the options that it gave.
abbrev pub provision_finish : Deployer → (Node → Result (Changes × Opts)) → Node → Finish
provision_finish d work node =
    if d.conductor.in_time node
    then (elim (work node) [ ok v ↦ returned none | err e ↦ raised e ])
    else unfinished

abbrev pub assignments : (Node → Result (Changes × Opts)) → Node → Changes
assignments work node = elim (work node) [ ok v ↦ v.0 | err e ↦ no_changes ]

abbrev pub options : (Node → Result (Changes × Opts)) → Node → Opts
options work node = elim (work node) [ ok v ↦ v.1 | err e ↦ [] ]

abbrev pub image_with_id : List OsImage → ℕ → Option OsImage
image_with_id images i = find_where (λ m. eqb m.id i) images

abbrev pub no_image : String
no_image = "OSImage is not defined for this node"

-- `not node.osimage_id`
abbrev pub lacks_image : Node → Bool
lacks_image r = elim r.osimage_id [ none ↦ true | some i ↦ eqb i 0 ]

abbrev pub own_image : Deployer → Node → Option OsImage
own_image d r = elim r.osimage_id [ none ↦ none | some i ↦ image_with_id d.images i ]

-- The images that `_validate_node_image` collects; an id of no image raises a KeyError.
unfoldable pub collect_images : Deployer → List Node → Result (List OsImage)
collect_images d [] = ok []
collect_images d (r ∷ rows) =
    let rest = collect_images d rows in
    elim (own_image d r) [ none ↦ err key_error | some m ↦ bind rest λ ms. ok (m ∷ ms) ]

unfoldable pub ensure_osimages : Deployer → List OsImage → Result (Unit {0})
ensure_osimages d [] = ok tt
ensure_osimages d (m ∷ ms) =
    let rest = ensure_osimages d ms in elim (d.ensure_osimage m) [ err e ↦ err e | ok _ ↦ rest ]

-- `opts.pop(key)`
abbrev pub pop : String → Opts → Result String
pop k opts = elim (lookup k opts) [ none ↦ err key_error | some v ↦ ok v ]

abbrev pub popped : Opts → Opts
popped = select (λ p. not (contains ("ip" ∷ "mac" ∷ "hostname" ∷ []) p.0))

-- The record of a node in ISCDHCPService.update_opts of xcat3/network/dhcp.py
unfoldable pub config_of : Deployer → Opts → Result Opts
config_of d opts = bind (pop "ip" opts) λ ip. bind (pop "mac" opts) λ mac.
    bind (pop "hostname" opts) λ hostname. bind (d.build_supersede (popped opts)) λ statements.
      let config : Opts =
        ("ip", ip) ∷ ("mac", mac) ∷ ("hostname", hostname) ∷ ("statements", statements) ∷ [] in
      ok (insert "content" (d.render config) config)

-- ISCDHCPService.update_opts with 'add', for the nodes that succeeded
unfoldable pub configs_of : Deployer → (Node → Opts) → List Node → Result (Dict Opts)
unfolding config_of
configs_of d opts [] = ok []
configs_of d opts (r ∷ rows) =
    let rest = configs_of d opts rows in
    bind (config_of d (opts r)) λ config. bind rest λ more. ok ((r.name, config) ∷ more)

abbrev pub updates : (Node → Changes) → List Node → List (ℕ × Changes)
updates changes = map (λ (r : Node). (r.id, changes r))

-- `except Exception as e: utils.fill_result(result, names, e.message)`
abbrev pub or_fill :
    Conductor → Dict String → List String → Action (Unit {0}) → Action (Dict String)
or_fill c result names m db =
    let (r, db') = m db in
    elim r [ ok _ ↦ (ok result, db') | err e ↦ (ok (fill_result result names (c.text e)), db') ]

-- The two writes of provision.
unfoldable pub record_deployment :
    Deployer → (Node → Result (Changes × Opts)) → Dict String → List Node → Action (Unit {0})
unfolding configs_of
record_deployment d work result rows = do
  configs ← lift (configs_of d (options work) (succeeded_nodes result rows))
  save_or_update_dhcp d.conductor.env.engine (succeeded result) configs
  save_nodes d.conductor.env.engine (updates (assignments work) (succeeded_nodes result rows))

abbrev pub checks_images : String → Option OsImage → Bool
checks_images target osimage = not (target == deploy_dhcp) && is_none osimage

-- The nodes that provision goes on with.
abbrev pub deployable : String → Option OsImage → List Node → List Node
deployable target osimage rows =
    if checks_images target osimage then select (λ r. not (lacks_image r)) rows else rows

-- `osimage or node.osimage`
abbrev pub image_for : Deployer → Option OsImage → Node → Option OsImage
image_for d none r = own_image d r
image_for d (some m) r = some m

abbrev pub images_of : Deployer → String → Option OsImage → List Node → Result (List OsImage)
images_of d target (some m) rows = ok (m ∷ [])
images_of d target none rows =
    if target == deploy_dhcp then ok [] else collect_images d (deployable target none rows)

abbrev pub node_work : Deployer → String → Option OsImage → Node → Result (Changes × Opts)
node_work d target osimage r = provision_work d target (image_for d osimage r) r

abbrev pub refused_images : String → Option OsImage → List Node → List (String × String)
refused_images target osimage rows =
    if checks_images target osimage
    then map (λ (r : Node). (r.name, no_image)) (select lacks_image rows)
    else []

-- The body of the task of provision.
unfoldable pub provision_body :
    Deployer → String → Option OsImage → List Node → Action (Dict String)
unfolding collect_images ensure_osimages
provision_body d target osimage rows = do
  images ← lift (images_of d target osimage rows)
  lift (ensure_osimages d images)
  let nodes = deployable target osimage rows
  replies ←
      lift
        (process_nodes_worker d.conductor (provision_finish d (node_work d target osimage)) nodes)
  let result = write_all (refused_images target osimage rows) replies
  or_fill d.conductor result (succeeded result)
      (record_deployment d (node_work d target osimage) result nodes)

-- ConductorManager.provision
unfoldable pub provision : Deployer → List String → String → Option OsImage → Action (Dict String)
unfolding provision_body
provision d names target osimage =
    with_task d.conductor.env names false (provision_body d target osimage)
