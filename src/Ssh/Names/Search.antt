-- ===== src/Ssh/Names/Search.antt =====
-- The search for the name of a virtual machine, on a host whose answers do not change it: the loops
-- of _get_hosts_name_for_node against a plain description of the name that they look for.
use mathlib.Core.Path.{subst}
use xcat.Prelude.{
  inl, inr, ◌⊎◌, Bool-cases, Option-cases, sym, ℕ, zero, suc, ◌≡◌, refl, Bool, true, false, not,
  ◌&&◌, ◌||◌, String, ◌==◌, eq_refl, contains, Option, none, some, List, [], ◌∷◌, map, find_where,
  arith,
}
use xcat.Db.{node_not_found, Result, ok, err}
use xcat.Ssh.Texts.{is_part, normalize_mac}
use xcat.Ssh.Names.{
  is_card, has_card, first_with_card, find_once, find_within, get_hosts_name_for_node,
}
use xcat.Ssh.{ControlInfo, Host, command, command_on, ssh_execute}

abbrev pub any {ℓ} : {A : Type ℓ} → (A → Bool) → List A → Bool
any p [] = false
any p (x ∷ xs) = p x || any p xs

-- Some address of the node has, normalised, an address of the host's as a part.
abbrev pub shares : List String → String → Bool
shares addresses host_mac =
    not (host_mac == "")
    && any (λ mac. is_part (normalize_mac host_mac) (normalize_mac mac)) addresses

-- What the two commands of the search print, which read the host and leave it as it is.
pub record IsQuiet {S : Type 0} (host : Host S) (c : ControlInfo) : Type 0 where
  pub names : S → List String
  pub macs_of : S → String → List String
  pub addresses : List String
  pub macs : c.macs ≡ map some addresses
  pub list_all : (s : S) → ssh_execute host (command c c.cmd_set.list_all) s ≡ (ok (names s), s)
  pub get_node_macs :
      (s : S) (name : String)
      → contains (names s) name ≡ true
      → (name == "") ≡ false
      → ssh_execute host (command_on c c.cmd_set.get_node_macs name) s ≡ (ok (macs_of s name), s)

is_card_lem :
    (host_mac : String) (addresses : List String)
    → is_card host_mac (map some addresses)
      ≡ ok (any (λ mac. is_part (normalize_mac host_mac) (normalize_mac mac)) addresses)
unfolding is_card
is_card_lem host_mac [] = refl
is_card_lem host_mac (mac ∷ addresses) = ground (arith, is_card_lem host_mac addresses)

has_card_lem :
    (addresses host_macs : List String)
    → has_card (map some addresses) host_macs ≡ ok (any (shares addresses) host_macs)
unfolding has_card
has_card_lem addresses [] = refl
has_card_lem addresses (host_mac ∷ host_macs) =
    ground (arith, has_card_lem addresses host_macs, is_card_lem host_mac addresses)

module _ {S : Type 0} {host : Host S} {c : ControlInfo} (quiet : IsQuiet host c) where
  -- A name whose machine has a card of the node
  abbrev pub is_wanted : S → String → Bool
  is_wanted s name = not (name == "") && any (shares quiet.addresses) (quiet.macs_of s name)

  -- The first such name that the host lists
  abbrev pub wanted : S → Option String
  wanted s = find_where (is_wanted s) (quiet.names s)

  -- The first of a number of looks at the host, with waits between them, that finds a name
  abbrev pub sought : ℕ → S → Result String × S
  sought zero s = (err node_not_found, s)
  sought (suc zero) s = elim (wanted s) [
    | none ↦ (err node_not_found, s)
    | some name ↦ (ok name, s)
  ]
  sought (suc (suc n)) s =
      let later = sought (suc n) (host.wait s) in
      elim (wanted s) [ none ↦ later | some name ↦ (ok name, s) ]

  first_with_card_lem :
      (nodes : List String) (s : S)
      → ((name : String) → contains nodes name ≡ true → contains (quiet.names s) name ≡ true)
      → first_with_card host c nodes s ≡ (ok (find_where (is_wanted s) nodes), s)
  unfolding first_with_card
  first_with_card_lem [] s listed = refl
  first_with_card_lem (node ∷ nodes) s listed =
      let owned : has_card c.macs (quiet.macs_of s node)
          ≡ ok (any (shares quiet.addresses) (quiet.macs_of s node)) =
        rw quiet.macs (has_card_lem quiet.addresses (quiet.macs_of s node)) in
      let later = first_with_card_lem nodes s (λ name h. listed name (ground (arith, h))) in
      let known = listed node (ground (arith, eq_refl node)) in
      elim (Bool-cases (node == "")) [
        | inl empty ↦ ground (arith, empty, later)
        | inr named ↦ ground (arith, named, quiet.get_node_macs s node known named, owned, later)
      ]

  find_once_lem : (s : S) → find_once host c s ≡ (ok (wanted s), s)
  unfolding find_once
  find_once_lem s =
      ground (arith, quiet.list_all s, first_with_card_lem (quiet.names s) s (λ name h. h))

  abbrev found : Result String × S → Result (Option String) × S
  found (ok name, s) = (ok (some name), s)
  found (err e, s) = (ok none, s)

  find_within_lem : (n : ℕ) (s : S) → find_within host c n s ≡ found (sought n s)
  unfolding find_within
  find_within_lem zero s = refl
  find_within_lem (suc zero) s = ground (arith, find_once_lem s)
  find_within_lem (suc (suc n)) s =
      ground (arith, find_once_lem s, find_within_lem (suc n) (host.wait s))

  pub sought-now :
      (n : ℕ) (s : S) (name : String) → wanted s ≡ some name → sought (suc n) s ≡ (ok name, s)
  sought-now zero s name e = ground (arith, e)
  sought-now (suc n) s name e = ground (arith, e)

  sought-later :
      (n : ℕ) (s : S) → wanted s ≡ none → sought (suc (suc n)) s ≡ sought (suc n) (host.wait s)
  sought-later n s e = ground (arith, e)

  abbrev pub Ends : Result String × S → Type 0
  Ends r =
      ((name : String) × (s' : S) × (r ≡ (ok name, s')) × (wanted s' ≡ some name))
      ⊎ ((s' : S) × (r ≡ (err node_not_found, s')))

  -- A search ends where a machine is wanted, or finds none.
  pub sought-Ends : (n : ℕ) (s : S) → Ends (sought n s)
  sought-Ends zero s = inr (s, refl)
  sought-Ends (suc zero) s = elim (Option-cases (wanted s)) [
    | inl nothing ↦ inr (s, ground (arith, nothing))
    | inr (name, e) ↦ inl (name, s, sought-now zero s name e, e)
  ]
  sought-Ends (suc (suc n)) s = elim (Option-cases (wanted s)) [
    | inl nothing ↦
        subst (Ends) (sym (sought-later n s nothing)) (sought-Ends (suc n) (host.wait s))
    | inr (name, e) ↦ inl (name, s, sought-now (suc n) s name e, e)
  ]

  -- On a host that lists its machines and their cards without changing, for a node all of whose
  -- cards have an address, the nested loops and retries of _get_hosts_name_for_node give the first
  -- name of the list that is not empty and whose machine has an address that, normalised, is part
  -- of an address of the node, at the first of at most three looks with waits between them that
  -- has one, else NodeNotFound.
  pub get_hosts_name_for_node-sought : (s : S) → get_hosts_name_for_node host c s ≡ sought 3 s
  unfolding get_hosts_name_for_node
  get_hosts_name_for_node-sought s = elim (sought-Ends 3 s) [
    | inl (name, s', e, _) ↦ ground (arith, find_within_lem 3 s, e)
    | inr (s', e) ↦ ground (arith, find_within_lem 3 s, e)
  ]
