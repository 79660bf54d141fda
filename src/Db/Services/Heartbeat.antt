-- ===== src/Db/Services/Heartbeat.antt =====
-- Registration, heartbeat and deregistration of services, as get_services of
-- xcat3/db/sqlalchemy/api.py shows them.
use mathlib.Core.Option
use xcat.Prelude.{
  inl, inr, ◌⊎◌, Bool-cases, Option-cases, ℕ, ◌+◌, ◌<◌, ◌≤◌, ◌≡◌, refl, Bool, true, false, ◌&&◌,
  String, ◌==◌, eq_iff, Option, none, some, List, [], ◌∷◌, ◌++◌, map, arith, eqb, ltb, select,
  count_where, update_where, find_where,
}
use xcat.Db.{Service, Db, ok, Engine, RollsBack, session_for_write}
use xcat.Db.Services.{
  is_service, get_services, Registration, registered, register_service, unregister_service,
  touch_service, init_host,
}

module _ (mine : Service → Bool) where
  find-update_all :
      (f : Service → Service) (rows : List Service)
      → ((s : Service) → mine (f s) ≡ true)
      → find_where mine (update_where mine f rows) ≡ Option.map f (find_where mine rows)
  find-update_all f [] h = refl
  find-update_all f (s ∷ rows) h = ground (arith, h s, find-update_all f rows h)

  find-append :
      (s : Service) (rows : List Service)
      → mine s ≡ true
      → find_where mine rows ≡ none
      → find_where mine (rows ++ s ∷ []) ≡ some s
  find-append s [] h absent = ground arith
  find-append s (t ∷ rows) h absent = ground (arith, find-append s rows h)

-- Whether a service is online, and its last heartbeat.
abbrev pub heartbeat : Option Service → Option (Bool × ℕ)
heartbeat = Option.map (λ (s : Service). (s.online, s.updated_at))

module _ (engine : Engine) (now : ℕ) (v : Registration) (db : Db) (rb : RollsBack engine) where
  abbrev mine : Service → Bool
  mine = is_service v.hostname v.type

  registered-mine : (i : ℕ) → mine (registered now v i) ≡ true
  registered-mine i = ground (arith, eq_iff v.hostname v.hostname, eq_iff v.type v.type)

  -- The registration of init_host does not raise, whether the service was online, offline or
  -- unknown, and afterwards the service of that host and type is online with the current time as
  -- its heartbeat, if the database rolls back.
  pub init_host-registers :
      ((init_host engine now v db).0 ≡ ok tt)
      × (heartbeat (find_where mine (init_host engine now v db).1.services) ≡ some (true, now))
  unfolding init_host register_service session_for_write
  init_host-registers = elim (Option-cases (find_where mine db.services)) [
    | inl absent ↦ ground (
      arith,
      find-append mine (registered now v v.fresh_id) db.services (registered-mine v.fresh_id)
          absent,
      absent,
    )
    | inr (s, found) ↦ ground (
      arith,
      find-update_all mine (λ s. registered now v s.id) db.services (λ s. registered-mine s.id),
      found,
      rb db db,
    )
  ]

abbrev pub is_online : String → String → Service → Bool
is_online hostname type s = s.online && is_service hostname type s

abbrev pub service_ids : List Service → List ℕ
service_ids = map (λ (s : Service). s.id)

ids-select :
    (p q : Service → Bool) (f : Service → Service) (rows : List Service)
    → ((s : Service) → (p (f s) ≡ p s) × ((f s).id ≡ s.id))
    → service_ids (select p (update_where q f rows)) ≡ service_ids (select p rows)
ids-select p q f [] h = refl
ids-select p q f (s ∷ rows) h = ground (arith, h s, ids-select p q f rows h)

ids-update :
    (q : Service → Bool) (f : Service → Service) (rows : List Service)
    → ((s : Service) → (f s).id ≡ s.id)
    → service_ids (update_where q f rows) ≡ service_ids rows
ids-update q f [] h = refl
ids-update q f (s ∷ rows) h = ground (arith, h s, ids-update q f rows h)

abbrev take_offline : Service → Service
take_offline s = record s { online = false }

unregistered :
    (engine : Engine) (hostname type : String) (db : Db)
    → RollsBack engine
    → ((unregister_service engine hostname type db).1 ≡ db)
      ⊎ ((unregister_service engine hostname type db).1 ≡ record db {
        services = update_where (is_online hostname type) take_offline db.services;
      })
unfolding unregister_service session_for_write
unregistered engine hostname type db rb =
    elim (Bool-cases (eqb (count_where (is_online hostname type) db.services) 0)) [
      | inl absent ↦ inl (
          ground (
            arith,
            absent,
            rb db (record db {
              services = update_where (is_online hostname type) take_offline db.services;
            }),
          ))
      | inr there ↦ inr (ground (arith, there))
    ]

-- Whether unregister_service returns or raises, get_services lists the same ids at any time, under
-- any type and timeout, and with or without the time limit, as if it had not been called, if the
-- database rolls back.
pub get_services-unregister_service :
    (engine : Engine) (hostname type wanted : String) (now timeout : ℕ) (check_limit : Bool)
    (db : Db)
    → RollsBack engine
    → service_ids
        (get_services now timeout wanted check_limit (unregister_service engine hostname type db).1)
      ≡ service_ids (get_services now timeout wanted check_limit db)
unfolding get_services
get_services-unregister_service engine hostname type wanted now timeout check_limit db rb =
    elim (unregistered engine hostname type db rb) [
      | inl same ↦ rw same
      | inr offline ↦ rw offline (listed check_limit)
    ]
  where
    listed :
        (check_limit : Bool)
        → service_ids (
            get_services now timeout wanted check_limit (record db {
              services = update_where (is_online hostname type) take_offline db.services;
            }))
          ≡ service_ids (get_services now timeout wanted check_limit db)
    listed true =
        ids-select (λ s. ltb now (s.updated_at + timeout) && s.type == wanted)
          (is_online hostname type) take_offline db.services (λ s. (refl, refl))
    listed false = ids-update (is_online hostname type) take_offline db.services (λ s. refl)

touched-listed :
    (hostname type : String) (now later timeout : ℕ) (rows : List Service)
    → later < now + timeout
    → count_where (is_service hostname type) (
        select
          (λ s. ltb later (s.updated_at + timeout) && s.type == type)
          (update_where
            (is_service hostname type)
            (λ s. record s { updated_at = now; online = true })
            rows))
      ≡ count_where (is_service hostname type) rows
touched-listed hostname type now later timeout [] h = refl
touched-listed hostname type now later timeout (s ∷ rows) h =
    ground (arith, touched-listed hostname type now later timeout rows h)

-- If touch_service returns, then at every time before the timeout has passed since then,
-- get_services with the time limit lists a service of that host and type.
pub get_services-touch_service :
    (engine : Engine) (hostname type : String) (now later timeout : ℕ) (db : Db)
    → later < now + timeout
    → (touch_service engine now hostname type db).0 ≡ ok tt
    → 1
      ≤ count_where
          (is_service hostname type)
          (get_services later timeout type true (touch_service engine now hostname type db).1)
unfolding get_services touch_service session_for_write
get_services-touch_service engine hostname type now later timeout db soon h =
    ground (arith, touched-listed hostname type now later timeout db.services soon)
