-- ===== src/Network/Lifecycle.antt =====
-- The life of the network service: xcat3/network/base_manager.py, the manager of the conductors with
-- another type and one worker.
use xcat.Prelude.{ℕ, String, Bool}
use xcat.Db.{Result, Engine}
use xcat.Db.Services.{Registration}
use xcat.Db.Services.Lifecycle.{World, start_host, stop_host, keepalive}

-- What the manager on a host registers, and the id that a new row would get
abbrev pub network_service : ℕ → String → Registration
network_service fresh_id host = record {
  fresh_id = fresh_id;
  hostname = host;
  type = "network";
  workers = 1;
}

module _ (engine : Engine) (fresh_id : ℕ) (host : String) where
  -- BaseServiceManager.init_host
  abbrev pub start_network : ℕ → Bool → Bool → World → Result (Unit {0}) × World
  start_network = start_host engine (network_service fresh_id host)

  -- BaseServiceManager.del_host
  abbrev pub stop_network : Bool → World → Result (Unit {0}) × World
  stop_network = stop_host engine (network_service fresh_id host)

  -- BaseServiceManager._service_record_keepalive
  abbrev pub network_keepalive : ℕ → Bool → World → Result (Unit {0}) × World
  network_keepalive = keepalive engine (network_service fresh_id host)
