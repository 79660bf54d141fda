-- ===== src/Tests/Starting.antt =====
-- A network service that starts, gives a sign of life and stops.
use xcat.Prelude.{◌≡◌, refl, true, false}
use xcat.Db.{session_for_write, err, runtime_error, no_free_service_worker}
use xcat.Db.Services.{init_host, register_service, del_host, unregister_service}
use xcat.Db.Services.Lifecycle.{World, start_host, stop_host}
use xcat.Network.Lifecycle.{start_network, stop_network, network_keepalive}
use xcat.Tests.{rolling_back, tables}

abbrev stopped : World
stopped = record {
  manager = record { started = false; has_service = false; keepalive_set = false };
  db = tables;
}

abbrev running : World
running = (start_network rolling_back 9 "n" 20 true true stopped).1

running-started : running.manager.started ≡ true
unfolding start_host init_host register_service session_for_write
running-started = refl

running-twice : (start_network rolling_back 9 "n" 30 true true running).0 ≡ err runtime_error
unfolding start_host init_host register_service session_for_write
running-twice = refl

refused-start :
    (start_network rolling_back 9 "n" 20 true false stopped).0 ≡ err no_free_service_worker
unfolding start_host init_host register_service session_for_write del_host unregister_service
    stop_host
refused-start = refl

running-stopped : (stop_network rolling_back 9 "n" true running).1.manager.started ≡ false
unfolding start_host init_host register_service session_for_write del_host unregister_service
    stop_host
running-stopped = refl

abbrev alive : World
alive = (network_keepalive rolling_back 9 "n" 30 true running).1
