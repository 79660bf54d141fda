-- ===== src/Db/Services.antt =====
-- Services and their heartbeat: class Connection of xcat3/db/sqlalchemy/api.py, and how a conductor
-- registers (init_host and del_host of xcat3/conductor/base_manager.py).
pub mod Heartbeat
pub mod Lifecycle
use xcat.Prelude.{
  ℕ, ◌+◌, ◌-◌, ◌≡◌, Bool, true, false, not, ◌&&◌, ◌||◌, String, ◌==◌, Option, none, some, List, [],
  ◌∷◌, ◌++◌, if◌then◌else◌, eqb, ltb, is_none, select, count_where, update_where, find_where,
}
use xcat.Db.{
  Service, Db, Error, service_already_registered, service_not_found, Result, ok, err, Action, pure,
  raise, ◌>>=◌, ◌>>◌, raise_if, Engine, session_for_write,
}

abbrev pub is_service : String → String → Service → Bool
is_service hostname type s = s.hostname == hostname && s.type == type

-- Connection.get_services, at the time `now`
unfoldable pub get_services : ℕ → ℕ → String → Bool → Db → List Service
get_services now heartbeat_timeout type true db =
    select (λ s. ltb now (s.updated_at + heartbeat_timeout) && s.type == type) db.services
get_services now heartbeat_timeout type false db = db.services

-- Connection.get_service
pub get_service : String → Db → List Service
get_service hostname db = select (λ s. s.hostname == hostname) db.services

-- Connection.get_service_from_id
pub get_service_from_id : ℕ → Action Service
get_service_from_id i db = (
  elim (find_where (λ s. eqb s.id i) db.services) [ none ↦ err service_not_found | some s ↦ ok s ],
  db,
)

-- The values of a registration, and the id that a new row would get.
pub record Registration : Type 0 where
  pub fresh_id : ℕ
  pub hostname : String
  pub type : String
  pub workers : ℕ

abbrev pub registered : ℕ → Registration → ℕ → Service
registered now v i = record {
  id = i;
  hostname = v.hostname;
  type = v.type;
  workers = v.workers;
  online = true;
  updated_at = now;
}

abbrev store_services : (List Service → List Service) → Action (Unit {0})
store_services f db = (ok tt, record db { services = f db.services })

-- Connection.register_service
unfoldable pub register_service : Engine → ℕ → Registration → Bool → Action (Unit {0})
unfolding session_for_write
register_service engine now v update_existing = session_for_write engine λ db.
    let mine = is_service v.hostname v.type in
    elim (find_where mine db.services) [
      | none ↦ store_services (λ ss. ss ++ registered now v v.fresh_id ∷ []) db
      | some ref ↦
          if ref.online && not update_existing
          then raise service_already_registered db
          else store_services (update_where mine (λ s. registered now v s.id)) db
    ]

abbrev update_services_where : (Service → Bool) → (Service → Service) → Action (Unit {0})
update_services_where p f db =
    if eqb (count_where p db.services) 0
    then (err service_not_found, record db { services = update_where p f db.services })
    else (ok tt, record db { services = update_where p f db.services })

-- Connection.unregister_service
unfoldable pub unregister_service : Engine → String → String → Action (Unit {0})
unfolding session_for_write
unregister_service engine hostname type = session_for_write engine (
    update_services_where (λ s. s.online && is_service hostname type s)
      (λ s. record s { online = false }))

-- Connection.touch_service
unfoldable pub touch_service : Engine → ℕ → String → String → Action (Unit {0})
unfolding session_for_write
touch_service engine now hostname type = session_for_write engine (
    update_services_where (is_service hostname type)
      (λ s. record s { updated_at = now; online = true }))

abbrev is_already_registered : Error → Bool
is_already_registered service_already_registered = true
is_already_registered _ = false

-- The registration of init_host: once more, as an update, where the service is registered already.
unfoldable pub init_host : Engine → ℕ → Registration → Action (Unit {0})
unfolding register_service
init_host engine now v db =
    let (r, db') = register_service engine now v false db in
    let again = register_service engine now v true db' in
    elim r [ ok _ ↦ (ok tt, db') | err e ↦ if is_already_registered e then again else (err e, db') ]

abbrev is_service_not_found : Error → Bool
is_service_not_found service_not_found = true
is_service_not_found _ = false

-- The deregistration of del_host, which passes over a service that is not there.
unfoldable pub del_host : Engine → String → String → Bool → Action (Unit {0})
unfolding unregister_service
del_host engine hostname type false db = (ok tt, db)
del_host engine hostname type true db =
    let (r, db') = unregister_service engine hostname type db in
    elim r [ ok _ ↦ (ok tt, db') | err e ↦ (if is_service_not_found e then ok tt else err e, db') ]
