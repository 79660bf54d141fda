-- ===== src/Tests.antt =====
-- A small installation: two nodes, a database that rolls back, a conductor that tries a lock twice.
pub mod Locks
pub mod Machines
pub mod Orders
pub mod Devices
pub mod Keys
pub mod Cards
pub mod Created
pub mod Patches
pub mod Values
pub mod Booting
pub mod Media
pub mod Subnets
pub mod Resources
pub mod Provisioning
pub mod Starting
pub mod Storing
pub mod Tables
pub mod Spreading
pub mod Requests
pub mod Names
use xcat.Prelude.{
  inl, inr, Bool-cases, ap, sym, ◌∙◌, ℕ, zero, suc, ◌≤◌, ◌≡◌, refl, Bool, true, false, String, ◌==◌,
  eq_iff, Option, none, some, List, [], ◌∷◌, arith, Dict, count_where, if◌then◌else◌,
}
use xcat.Db.{Network, Node, Nic, Service, Db, Error, Result, ok, err, Action, Engine, RollsBack}
use xcat.Db.Nodes.Counts.{UniqueNames}
use xcat.Task.{Env, Retry, IsRetry, Meanwhile, is_locked}
use xcat.Conductor.{ControlPlugin, Conductor}

abbrev pub rolling_back : Engine
rolling_back = record { abort = λ before now. before }

pub rolling_back_lem : RollsBack rolling_back
rolling_back_lem before now = refl

abbrev pub idle : Node
idle = record {
  id = 1;
  name = "a";
  mgt = some "ipmi";
  netboot = "pxe";
  arch = none;
  state = none;
  osimage_id = some 7;
  reservation = none;
  conductor_affinity = none;
}

abbrev pub deploying : Node
deploying = record idle {
  id = 2;
  name = "b";
  state = some "deploying";
  conductor_affinity = some 3;
}

abbrev pub card : Nic
card = record {
  id = 1;
  uuid = some "u";
  mac = some "m";
  ip = none;
  node_id = some 1;
  primary = true;
}

abbrev pub first_host : Service
first_host = record {
  id = 3;
  hostname = "h";
  type = "conductor";
  workers = 1;
  online = true;
  updated_at = 10;
}

abbrev pub second_host : Service
second_host = record first_host { id = 4; hostname = "g" }

abbrev pub third_host : Service
third_host = record first_host { id = 5; hostname = "f" }

abbrev pub lan : Network
lan = record {
  id = 1;
  name = "lan";
  subnet = "10.0.0.0";
  netmask = none;
  gateway = none;
  nameservers = none;
  ntpservers = none;
  domain = none;
  dynamic_range = none;
}

abbrev pub tables : Db
tables = record {
  nodes = idle ∷ deploying ∷ [];
  nics = card ∷ [];
  dhcp = ("a", ("ip", "x") ∷ []) ∷ ("b", []) ∷ [];
  services = first_host ∷ second_host ∷ [];
  networks = lan ∷ [];
  images = [];
  passwds = [];
}

pub tables-UniqueNames : UniqueNames tables.nodes
tables-UniqueNames n = elim (Bool-cases ("a" == n)) [
  | inl a ↦ elim (Bool-cases ("b" == n)) [
    | inl b ↦
        let e : true ≡ false = ap (λ s. s == "a") ((eq_iff "a" n).0 a ∙ sym ((eq_iff "b" n).0 b)) in
        cc
    | inr other ↦ rw (a, other) (omega arith)
  ]
  | inr other ↦ elim (Bool-cases ("b" == n)) [
    | inl b ↦ rw (other, b) (omega arith)
    | inr neither ↦ rw (other, neither) (omega arith)
  ]
]

abbrev attempt : ℕ → Meanwhile → Action (List Node) → Action (List Node)
attempt zero others m db = m db
attempt (suc zero) others m db = m db
attempt (suc (suc k)) others m db =
    let again = attempt (suc k) others m (others k (m db).1) in
    if is_locked (m db).0 then again else m db

abbrev pub retrying : Retry
retrying = record { run = attempt }

pub retrying-IsRetry : IsRetry retrying
retrying-IsRetry = record { last = λ others m db. refl; more = λ k others m db. refl }

abbrev pub env : Env
env = record {
  engine = rolling_back;
  retry = retrying;
  others = λ k db. db;
  host = "h";
  attempts = 2;
}

abbrev pub plugin : ControlPlugin
plugin = record {
  validate = λ node. ok tt;
  set_power_state = λ node target. ok tt;
  get_power_state = λ node. ok (some "on");
  get_boot_device = λ node. ok (some "disk");
  set_boot_device = λ node device. ok tt;
}

abbrev pub conductor : Conductor
conductor = record {
  env = env;
  text = λ e. "failed";
  timeout_text = "timeout";
  accepts = λ node. true;
  in_time = λ node. true;
  service_id = 3;
  ipmi = plugin;
  kvm = plugin;
}
