-- ===== src/Lib.antt =====
-- A model of the control plane of xcat3, which manages bare-metal nodes: a REST API accepts requests
-- for lists of nodes and spreads them over conductors by RPC; a conductor locks the nodes of a request
-- in a shared database, runs a plugin for each node in a green thread, writes what has changed, and
-- gives the locks back.
--
-- Files, and the code that they model:
-- - Prelude and its children: tests, lists, rows of a table, dictionaries.
-- - Db: rows (xcat3/db/sqlalchemy/models.py), exceptions (xcat3/common/exception.py), and calls as
--   functions from tables to a result and tables. `session_for_write` is a transaction.
-- - Db.Nodes: class Connection of xcat3/db/sqlalchemy/api.py as far as it is about nodes. Its children
--   are about counting rows, reservations, releases, deletions and saves; Db.Nodes.Create is about
--   new nodes.
-- - Db.Tables: the same class on networks, images and passwords, three tables with the same operations;
--   Db.Tables.Calls names these operations as the class does. Db.Tables.Names is the specification of a
--   table as a map from keys to rows, Db.Tables.Refinement the proof against it. Db.Nics: network cards,
--   with xcat3/objects/nic.py.
-- - Db.Dhcp, Db.Services: the same class on DHCP records and services, with init_host and del_host of
--   xcat3/conductor/base_manager.py. Db.Services.Lifecycle: a service process that starts, gives signs of
--   life and stops, as steps; Network.Lifecycle is that of xcat3/network/base_manager.py.
-- - Task: xcat3/conductor/task_manager.py. A `with` block is `with_task`. Task.Locks is about one task,
--   Task.Exclusion about any number of them, as steps on a system of tables and leases.
-- - Dispatch: class ConductorAPI of xcat3/conductor/rpcapi.py, from the list of names of a request to
--   the calls with their topics.
-- - Conductor: class ConductorManager of xcat3/conductor/manager.py, a child for each group of methods,
--   with the plugin map of xcat3/plugins/mapping.py and the DHCP options of xcat3/network/dhcp.py.
-- - Ipmi: xcat3/plugins/control/ipmi.py.
-- - Pxe: xcat3/plugins/boot/pxe.py, on the files of Pxe.Tree. Pxe.Clean is about a cleaning after a build.
-- - Petitboot: xcat3/plugins/boot/petitboot.py. Dhcp: the configuration of the DHCP server, from
--   xcat3/network/dhcp.py.
-- - Copycd: xcat3/copycd/base.py and copycds.py; its children Redhat, Ubuntu and Cache are the other files
--   of that directory, Copycd.Upload is about what an upload leaves.
-- - Fields: xcat3/objects/fields.py; Fields.Coerced is about what the types let through.
-- - Network: xcat3/network/manager.py and rpcapi.py with xcat3/common/ip_lib.py. Network.Support is about
--   which service is asked.
-- - Ssh: xcat3/plugins/control/ssh.py. Ssh.Texts is what it does with texts, of which `int` reads ASCII
--   digits only, Ssh.Info reads a node's control_info, Ssh.Names finds the name of its machine, Ssh.Power and Ssh.Boot give the orders, and
--   Ssh.Plugin puts them together; the other children are about their laws.
-- - Api: xcat3/api/controllers/v1/node.py: Api.Filter is about the names that a request goes on with,
--   Api.Replies about the reply that its calls give, Api.Create is the creation of nodes, Api.Patch the
--   patching of nodes with xcat3/api/controllers/v1/utils.py. Api.Remote runs what ConductorAPI calls
--   on the conductors, one call after the other; Api.Provision is the deployment and the cleaning of
--   nodes with both services, Api.Nics the network cards of xcat3/api/controllers/v1/nic.py. Api.Values
--   has the types of the values of a request, from xcat3/api/controllers/v1/types.py, Api.Resources the
--   controllers of networks, images and passwords with their objects. Validation of the JSON that is
--   sent back is left out.
-- - Tests: a small installation on which the theorems are applied.
--
-- What stands outside the program is a parameter: the engine that rolls a transaction back (`Engine`,
-- with `RollsBack` as its documented behaviour), the package retrying (`Retry`, `IsRetry`), what other
-- processes do between two attempts (`Meanwhile`), the order in which a dictionary is gone through
-- (`Items`), which file operations the system refuses, which the code only logs (`System`), which
-- calls an executor accepts and which threads end in time, the package pyghmi, the host that the SSH
-- plugin reaches through paramiko and oslo.concurrency (`Host`), whose commands do what `IsQuiet`,
-- `IsReporting`, `IsHypervisor` and `IsEditor` say, mount, cpio, sendfile (`IsSendfile`) and
-- downloads of image copying, jsonpatch, and the packages that read addresses (`Packages`,
-- `IsDocumented`). The plugins that a node names are parameters of the conductor, as is the text
-- that the DHCP template gets: Dhcp has _build_supersede by itself. Logging, configuration and
-- messaging are left out. The conductor takes what its plugins do to files as their own affair.
--
-- Not modelled: the templates that the image plugins write, sending pages and links of lists, schemas of
-- fields, the abstract interface of xcat3/db/api.py, which only declares what Db implements, the
-- declarations of options, and the commands that start the services.
--
-- A transaction is one step: the database serialises what touches the same rows. Times are numbers.
-- Recursion is on lists and on the number of attempts. Two loops are on fuel. That of copy_image has one
-- round for each byte of its source and one more, which is enough since each round moves on by a block.
-- os.path.exists follows forty links, as Linux does, and is false where there are more.
pub mod Prelude
pub mod Db
pub mod Task
pub mod Dispatch
pub mod Conductor
pub mod Ipmi
pub mod Ssh
pub mod Fields
pub mod Pxe
pub mod Petitboot
pub mod Dhcp
pub mod Network
pub mod Copycd
pub mod Api
pub mod Tests
