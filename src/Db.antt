-- ===== src/Db.antt =====
-- The database: its tables as lists of rows (xcat3/db/sqlalchemy/models.py), calls that read and
-- write them and may raise, and the session that undoes what an exception interrupts.
pub mod Nodes
pub mod Services
pub mod Dhcp
pub mod Tables
pub mod Nics
use xcat.Prelude.{
  arith, ℕ, ◌≡◌, refl, ◌⊎◌, inl, inr, Bool, String, Option, none, some, List, Dict, if◌then◌else◌,
  is_text, contains,
}

-- class Node(Base)
pub record Node : Type 0 where
  pub id : ℕ
  pub name : String
  pub mgt : Option String
  pub netboot : String
  pub arch : Option String
  pub state : Option String
  pub osimage_id : Option ℕ
  pub reservation : Option String
  pub conductor_affinity : Option ℕ

-- class Nics(Base)
pub record Nic : Type 0 where
  pub id : ℕ
  pub uuid : Option String
  pub mac : Option String
  pub ip : Option String
  pub node_id : Option ℕ
  pub primary : Bool

-- class Service(Base)
pub record Service : Type 0 where
  pub id : ℕ
  pub hostname : String
  pub type : String
  pub workers : ℕ
  pub online : Bool
  pub updated_at : ℕ

-- class Networks(Base)
pub record Network : Type 0 where
  pub id : ℕ
  pub name : String
  pub subnet : String
  pub netmask : Option String
  pub gateway : Option String
  pub nameservers : Option String
  pub ntpservers : Option String
  pub domain : Option String
  pub dynamic_range : Option String

-- class OSImage(Base)
pub record OsImage : Type 0 where
  pub id : ℕ
  pub name : String
  pub distro : String
  pub ver : String
  pub arch : String
  pub orig_name : Option String
  pub profile : Option String
  pub provmethod : Option String
  pub rootfstype : Option String

-- class Passwd(Base)
pub record Passwd : Type 0 where
  pub id : ℕ
  pub key : String
  pub username : Option String
  pub password : Option String
  pub crypt_method : Option String

pub record Db : Type 0 where
  pub nodes : List Node
  pub nics : List Nic
  pub dhcp : Dict (Dict String)
  pub services : List Service
  pub networks : List Network
  pub images : List OsImage
  pub passwds : List Passwd

-- The exceptions of xcat3/common/exception.py that the modelled code raises.
pub data Error : Type 0 where
  node_not_found node_locked node_not_locked : Error
  invalid_identity duplicate_name : Error
  nic_not_found mac_already_exists nic_already_exists : Error
  service_already_registered service_not_found : Error
  invalid_parameter missing_parameter plugin_not_found file_not_found : Error
  no_free_service_worker no_free_api_worker no_valid_host : Error
  exclusive_lock_required deploy_state_failure : Error
  power_state_failure ipmi_failure ssh_connect_failed ssh_command_failed : Error
  network_not_found osimage_not_found passwd_not_found : Error
  network_already_exists osimage_already_exists passwd_already_exists : Error
  key_error type_error index_error attribute_error value_error not_implemented : Error
  unbound_local_error invalid_name client_side_error json_patch_error : Error
  invalid_request db_duplicate_entry invalid_mac invalid_uuid : Error
  command_failed unexpected_error invalid_file resource_in_using invalid_nic_attr : Error
  multiple_results_found io_error invalid_passwd runtime_error rejected_submission : Error

pub data Result {ℓ} (A : Type ℓ) : Type ℓ where
  ok : A → Result A
  err : Error → Result A

pub Result-cases :
    {A : Type 0} (r : Result A) → ((a : A) × (r ≡ ok a)) ⊎ ((e : Error) × (r ≡ err e))
Result-cases (ok a) = inl (a, refl)
Result-cases (err e) = inr (e, refl)

-- A call on the database: what it returns or raises, and the tables after it.
abbrev pub Action : Type 0 → Type 0
Action A = Db → Result A × Db

module _ {A : Type 0} where
  abbrev pub pure : A → Action A
  pure a db = (ok a, db)

  abbrev pub raise : Error → Action A
  raise e db = (err e, db)

infixl 5 ◌>>=◌ ◌>>◌
abbrev pub ◌>>=◌ : {A B : Type 0} → Action A → (A → Action B) → Action B
◌>>=◌ m f db = let (r, db') = m db in elim r [ ok a ↦ f a db' | err e ↦ raise e db' ]

abbrev pub ◌>>◌ : {A B : Type 0} → Action A → Action B → Action B
m >> k = m >>= λ _. k

abbrev pub raise_if : Bool → Error → Action (Unit {0})
raise_if c e db = (if c then err e else ok tt, db)

-- The session that oslo.db gives: what the tables are when an exception leaves a transaction that
-- began at `before` and had reached `now`.
pub record Engine : Type 0 where
  pub abort : Db → Db → Db

-- The documented behaviour: the transaction is rolled back.
abbrev pub RollsBack : Engine → Type 0
RollsBack engine = (before now : Db) → engine.abort before now ≡ before

-- `with _session_for_write()`
unfoldable pub session_for_write : {A : Type 0} → Engine → Action A → Action A
session_for_write engine m db =
    let (r, db') = m db in elim r [ ok a ↦ (ok a, db') | err e ↦ (err e, engine.abort db db') ]

-- What raises within a transaction has changed nothing.
pub session_for_write-atomic :
    {A : Type 0} (engine : Engine) (m : Action A) (db : Db) (e : Error)
    → RollsBack engine
    → (session_for_write engine m db).0 ≡ err e
    → (session_for_write engine m db).1 ≡ db
unfolding session_for_write
session_for_write-atomic engine m db e rb h = ground (arith, rb db (m db).1)

-- What returns has done what its body does.
pub session_for_write-ok :
    {A : Type 0} (engine : Engine) (m : Action A) (db : Db) (a : A)
    → (session_for_write engine m db).0 ≡ ok a
    → session_for_write engine m db ≡ m db
unfolding session_for_write
session_for_write-ok engine m db a h = ground arith

-- `models.Node.name.in_(names)`
abbrev pub named_in : List String → Node → Bool
named_in names r = contains names r.name

-- What the body of a transaction keeps, the transaction keeps.
pub session_for_write-nodes :
    {A : Type 0} (engine : Engine) (m : Action A) (db : Db)
    → RollsBack engine
    → (m db).1.nodes ≡ db.nodes
    → (session_for_write engine m db).1.nodes ≡ db.nodes
unfolding session_for_write
session_for_write-nodes engine m db rb h = ground (arith, rb db (m db).1)

-- The rows that hold a lock of the tag.
abbrev pub is_reserved_by : String → Node → Bool
is_reserved_by tag r = is_text r.reservation tag
