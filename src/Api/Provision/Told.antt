-- ===== src/Api/Provision/Told.antt =====
-- What a provision request is told: NodeProvisionController.put and the network service.
use xcat.Prelude.{
  inl, inr, ap, sym, ◌∙◌, ◌≡◌, ◌≢◌, refl, true, false, if◌then◌else◌, String, Option, some, List,
  [], ◌∷◌, arith, Dict, lookup, contains, is_empty,
}
use text.Mathlib.Text.{starts_with}
use xcat.Db.{Result-cases, OsImage, Passwd, Network, Db, Error, Result, ok, err}
use xcat.Conductor.{success}
use xcat.Api.{Reply, filter_unavailable_nodes, wait_rpc_result}
use xcat.Api.Remote.{send_provision, send_clean}
use xcat.Conductor.Workers.{lookup-fill_result}
use xcat.Db.Tables.{get_by_key, networks}
use xcat.Api.Provision.{
  Subnet, any_subnet, named_or_none, Server, arguments, plain, enable_dhcp_option, subnet_object,
  subnet_text, finish, deploy, put_target, put_clean, put,
}

-- What put gives to the network service for the argument `subnet`
abbrev pub passed_subnet : String → Option String → Db → Subnet
passed_subnet target subnet db =
    if starts_with target "un_"
    then subnet_text subnet
    else elim (named_or_none (λ name. (get_by_key networks name db).0) subnet) [
      | err e ↦ any_subnet
      | ok network ↦ subnet_object network
    ]

module _ (s : Server) (text : (e : Error) → s.exception_text e ≢ success) where
  not-empty : (names : List String) (n : String) → contains names n ≡ true → is_empty names ≡ false
  not-empty [] n h = cc
  not-empty (m ∷ names) n h = refl

  finish-enabled :
      (names : List String) (n : String) (subnet : Subnet) (reply told : Reply) (db : Db)
      → contains names n ≡ true
      → finish s names subnet reply db ≡ ok told
      → lookup n told.nodes ≡ some success
      → enable_dhcp_option s subnet db ≡ ok tt
  unfolding finish
  finish-enabled names n subnet reply told db asked returns says =
      elim (Result-cases (enable_dhcp_option s subnet db)) [
        | inl (_, h) ↦ h
        | inr (e, h) ↦
            let message = s.exception_text e in
            grind (
              arith,
              asked,
              returns,
              says,
              h,
              text e,
              lookup-fill_result reply.nodes names message n,
            )
      ]

  deploy-enabled :
      (target : String) (found : Option Network × Option OsImage × Passwd) (names : List String)
      (n : String) (result : Dict String) (told : Reply) (db : Db)
      → contains names n ≡ true
      → (deploy s target found names result db).0 ≡ ok told
      → lookup n told.nodes ≡ some success
      → enable_dhcp_option s (subnet_object found.0) (deploy s target found names result db).1
        ≡ ok tt
  unfolding deploy
  deploy-enabled target (network, image, passwd) names n result told db asked returns says =
      let (sent, db') = send_provision s.cluster names target image passwd network db in
      elim (Result-cases sent) [
        | inr (e, h) ↦ ground (arith, h, returns)
        | inl (futures, h) ↦
            elim (Result-cases (wait_rpc_result s.timeout_text futures (plain result))) [
              | inr (e, h') ↦ ground (arith, h, h', returns)
              | inl (reply, h') ↦ ground (
                arith,
                h,
                h',
                returns,
                finish-enabled names n (subnet_object network) reply told db' asked,
              )
            ]
      ]

  put_clean-enabled :
      (subnet : Option String) (names : List String) (n : String) (result : Dict String)
      (told : Reply) (db : Db)
      → contains names n ≡ true
      → (put_clean s subnet names result db).0 ≡ ok told
      → lookup n told.nodes ≡ some success
      → enable_dhcp_option s (subnet_text subnet) (put_clean s subnet names result db).1 ≡ ok tt
  unfolding put_clean
  put_clean-enabled subnet names n result told db asked returns says =
      let (sent, db') = send_clean s.cluster result names db in
      elim (Result-cases sent) [
        | inr (e, h) ↦ ground (arith, h, returns)
        | inl ((futures, result'), h) ↦
            elim (Result-cases (wait_rpc_result s.timeout_text futures (plain result'))) [
              | inr (e, h') ↦ ground (arith, h, h', returns)
              | inl (reply, h') ↦ ground (
                arith,
                h,
                h',
                returns,
                finish-enabled names n (subnet_text subnet) reply told db' asked,
              )
            ]
      ]

  -- Which branch answers a request that names a node which is free to be taken
  branch : String → Option String → Option String → List String → Db → Result Reply × Db
  branch target osimage subnet names db =
      let (result, available) = filter_unavailable_nodes names false db in
      if starts_with target "un_"
      then put_clean s subnet available result db
      else put_target s target osimage subnet available result db

  put-branch :
      (target : String) (osimage subnet : Option String) (names : List String) (n : String)
      (told : Reply) (db : Db)
      → contains (filter_unavailable_nodes names false db).1 n ≡ true
      → (put s target osimage subnet names db).0 ≡ ok told
      → put s target osimage subnet names db ≡ branch target osimage subnet names db
  unfolding put branch
  put-branch target osimage subnet names n told db asked returns =
      let some_left = not-empty (filter_unavailable_nodes names false db).1 n asked in
      ground (arith, some_left, returns)

  branch-enabled :
      (target : String) (osimage subnet : Option String) (names : List String) (n : String)
      (told : Reply) (db : Db)
      → contains (filter_unavailable_nodes names false db).1 n ≡ true
      → (branch target osimage subnet names db).0 ≡ ok told
      → lookup n told.nodes ≡ some success
      → enable_dhcp_option s
          (passed_subnet target subnet db)
          (branch target osimage subnet names db).1
        ≡ ok tt
  unfolding branch put_target
  branch-enabled target osimage subnet names n told db asked returns says =
      let (result, available) = filter_unavailable_nodes names false db in
      let cleaned = put_clean-enabled subnet available n result told db asked in
      let deployed = λ (found : Option Network × Option OsImage × Passwd).
        deploy-enabled target found available n result told db asked in
      elim (Result-cases (arguments osimage subnet db)) [
        | inr (x, h) ↦ ground (arith, h, returns, says, cleaned)
        | inl (found, h) ↦ ground (arith, h, returns, says, cleaned, deployed found)
      ]

  -- If put returns and tells success of a requested name that was free to be taken, the network
  -- service has been asked, on the tables that the request leaves, for the network of the request,
  -- and it has enabled its options, for messages of exceptions that differ from the text of a
  -- success.
  pub put-enabled :
      (target : String) (osimage subnet : Option String) (names : List String) (n : String)
      (told : Reply) (db : Db)
      → contains (filter_unavailable_nodes names false db).1 n ≡ true
      → (put s target osimage subnet names db).0 ≡ ok told
      → lookup n told.nodes ≡ some success
      → enable_dhcp_option s
          (passed_subnet target subnet db)
          (put s target osimage subnet names db).1
        ≡ ok tt
  put-enabled target osimage subnet names n told db asked returns says =
      let out = put-branch target osimage subnet names n told db asked returns in
      let done = branch-enabled target osimage subnet names n told db asked in
      rw out (done (ap (λ p. p.0) (sym out) ∙ returns) says)
