-- ===== src/Db/Services/Lifecycle.antt =====
-- The life of a service process: init_host, del_host, _spawn_worker and _service_record_keepalive of
-- xcat3/conductor/base_manager.py and xcat3/network/base_manager.py, which differ in their type only.
-- The collection of periodic tasks is left out.
use mathlib.Core.Option
use xcat.Prelude.{ℕ, ◌≡◌, Bool, true, false, not, Option, some, if◌then◌else◌, find_where}
use xcat.Db.{
  Service, Db, runtime_error, rejected_submission, no_free_service_worker, Result, ok, err, Engine,
}
use xcat.Db.Services.{is_service, Registration, touch_service, init_host, del_host}

-- BaseConductorManager and BaseServiceManager: `_started`, whether there is an attribute `service`, and
-- whether `_keepalive_evt` is set
pub record Manager : Type 0 where
  pub started : Bool
  pub has_service : Bool
  pub keepalive_set : Bool

-- A process and the tables
pub record World : Type 0 where
  pub manager : Manager
  pub db : Db

-- _spawn_worker, for whether the executor accepts the call
abbrev pub spawn_worker : Bool → Result (Unit {0})
spawn_worker true = ok tt
spawn_worker false = err no_free_service_worker

-- What a process is: its database, and the values that it registers
module _ (engine : Engine) (v : Registration) where
  -- BaseConductorManager.del_host
  unfoldable pub stop_host : Bool → World → Result (Unit {0}) × World
  stop_host deregister w =
      let (r, db') = del_host engine v.hostname v.type deregister w.db in
      let m = record w.manager { keepalive_set = true } in
      if not w.manager.has_service then (ok tt, w) else elim r [
        | err e ↦ (err e, record { manager = m; db = db' })
        | ok _ ↦ (ok tt, record { manager = record m { started = false }; db = db' })
      ]

  -- BaseConductorManager.init_host at the time `now`, for whether the executor accepts the periodic
  -- tasks and the keepalive. What del_host raises takes the place of NoFreeServiceWorker.
  unfoldable pub start_host : ℕ → Bool → Bool → World → Result (Unit {0}) × World
  unfolding stop_host
  start_host now accepts_tasks accepts_keepalive w =
      let m = record w.manager { keepalive_set = false } in
      let (registered, db') = init_host engine now v w.db in
      let with_service : World = record { manager = record m { has_service = true }; db = db' } in
      if w.manager.started
      then (err runtime_error, w)
      else if not accepts_tasks
      then (err rejected_submission, record w { manager = m })
      else elim registered [
        | err e ↦ (err e, record { manager = m; db = db' })
        | ok _ ↦ elim (spawn_worker accepts_keepalive) [
          | ok _ ↦ (
            ok tt,
            record { manager = record m { has_service = true; started = true }; db = db' },
          )
          | err e ↦
              let (r, w') = stop_host true with_service in
              elim r [ ok _ ↦ (err e, w') | err e' ↦ (err e', w') ]
        ]
      ]

  -- A turn of _service_record_keepalive, for whether the database can be reached; a service that is
  -- not there ends the thread with its exception.
  unfoldable pub keepalive : ℕ → Bool → World → Result (Unit {0}) × World
  keepalive now reachable w =
      let (r, db') = touch_service engine now v.hostname v.type w.db in
      if w.manager.keepalive_set
      then (ok tt, w)
      else if not reachable
      then (ok tt, w)
      else (r, record w { db = db' })

  abbrev pub mine : Service → Bool
  mine = is_service v.hostname v.type

  -- What happens: this process starts, stops or gives a sign of life, and others do what leaves the row
  -- of this service alone.
  pub data Event : World → World → Type 0 where
    starts :
        (w : World) (now : ℕ) (accepts_tasks accepts_keepalive : Bool)
        → Event w (start_host now accepts_tasks accepts_keepalive w).1
    stops : (w : World) (deregister : Bool) → Event w (stop_host deregister w).1
    beats : (w : World) (now : ℕ) (reachable : Bool) → Event w (keepalive now reachable w).1
    others :
        (w : World) (db' : Db)
        → find_where mine db'.services ≡ find_where mine w.db.services
        → Event w (record w { db = db' })

  pub data Run (w : World) : World → Type 0 where
    here : Run w w
    next : {t u : World} → Run w t → Event t u → Run w u

  abbrev pub online : Option Service → Option Bool
  online = Option.map (λ (s : Service). s.online)

  -- A process that has started is registered, and its service is online.
  pub record IsAlive (w : World) : Type 0 where
    pub registered : w.manager.started ≡ true → w.manager.has_service ≡ true
    pub beating : w.manager.started ≡ true → w.manager.keepalive_set ≡ false
    pub listed : w.manager.started ≡ true → online (find_where mine w.db.services) ≡ some true
