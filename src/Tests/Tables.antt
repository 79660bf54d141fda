-- ===== src/Tests/Tables.antt =====
-- Writes to the tables of the installation.
use xcat.Prelude.{arith, count_where, ◌≤◌, ◌≡◌, refl, true, none, some, [], ◌∷◌}
use xcat.Db.{type_error, ok, err, session_for_write}
use xcat.Db.Nodes.{Changes, destroy_nodes, save_nodes}
use xcat.Db.Services.{is_service, get_services, Registration, touch_service}
use xcat.Db.Services.Heartbeat.{get_services-touch_service}
use xcat.Tests.{rolling_back, tables}

idle-destroyed : (destroy_nodes rolling_back (1 ∷ []) tables).0 ≡ ok tt
unfolding destroy_nodes session_for_write
idle-destroyed = refl

abbrev finished : Changes
finished = record {
  state = some (some "deployed");
  conductor_affinity = some none;
  osimage_id = none;
}

unknown-saved : (save_nodes rolling_back ((9, finished) ∷ []) tables).0 ≡ err type_error
unfolding save_nodes session_for_write
unknown-saved = refl

abbrev registration : Registration
registration = record { fresh_id = 8; hostname = "h"; type = "conductor"; workers = 2 }

h-touched : (touch_service rolling_back 20 "h" "conductor" tables).0 ≡ ok tt
unfolding touch_service session_for_write
h-touched = refl

get_services-touch_service_example :
    1
    ≤ count_where (is_service "h" "conductor") (
        get_services 70 60 "conductor" true
          (touch_service rolling_back 20 "h" "conductor" tables).1)
get_services-touch_service_example =
    get_services-touch_service rolling_back "h" "conductor" 20 70 60 tables (omega arith) h-touched
