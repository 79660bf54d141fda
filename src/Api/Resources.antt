-- ===== src/Api/Resources.antt =====
-- The controllers of networks, images and passwords: xcat3/api/controllers/v1/network.py, osimage.py
-- and passwd.py, over the objects of xcat3/objects. The three have the same handlers over their
-- fields. The columns `extra`, `created_at` and `updated_at` are left out.
pub mod Laws
pub mod Images
mod Calls
use xcat.Prelude.{
  ℕ, Bool, true, false, not, ◌&&◌, ◌||◌, String, ◌==◌, Option, none, some, List, [], ◌∷◌, ◌++◌,
  Dict, lookup, contains, if◌then◌else◌, is_none,
}
use xcat.Db.{
  Network, OsImage, Passwd, Service, Db, Error, key_error, json_patch_error, value_error,
  invalid_passwd, Result, ok, err, Action, raise, ◌>>=◌, ◌>>◌, Engine,
}
use xcat.Db.Tables as Tables
use xcat.Db.Tables.{Table, number, get_by_id, get_by_key, networks, images, passwds}
use xcat.Api.Patch.{Patch, Doc, Attribute, leaf, prune}
use xcat.Network.{broadcast}

-- A field of an object that the API exposes
pub record Field (R : Type 0) : Type 0 where
  pub name : String
  pub nullable : Bool
  pub get : R → Option String
  pub put : Option String → R → R

-- An object's class: its table, its fields, and its own check of the changes that it saves
pub record Resource (R : Type 0) : Type 0 where
  pub table : Table R
  pub fields : List (Field R)
  pub validate : Dict (Option String) → Result (Unit {0})

-- A field that cannot be None is only given texts.
abbrev text_or_empty : Option String → String
text_or_empty none = ""
text_or_empty (some s) = s

abbrev text_field : {R : Type 0} → String → (R → String) → (String → R → R) → Field R
text_field name get put = record {
  name = name;
  nullable = false;
  get = λ r. some (get r);
  put = λ v r. put (text_or_empty v) r;
}

abbrev option_field :
    {R : Type 0} → String → (R → Option String) → (Option String → R → R) → Field R
option_field name get put = record { name = name; nullable = true; get = get; put = put }

abbrev no_check : Dict (Option String) → Result (Unit {0})
no_check changes = ok tt

-- objects.Network; its netmask cannot be None.
abbrev pub network : Resource Network
network = record {
  table = networks;
  validate = no_check;
  fields =
      text_field "name" (λ n. n.name) (λ v n. record n { name = v })
      ∷ text_field "subnet" (λ n. n.subnet) (λ v n. record n { subnet = v })
      ∷ record {
        name = "netmask";
        nullable = false;
        get = λ n. n.netmask;
        put = λ v n. record n { netmask = v };
      }
      ∷ option_field "gateway" (λ n. n.gateway) (λ v n. record n { gateway = v })
      ∷ option_field "nameservers" (λ n. n.nameservers) (λ v n. record n { nameservers = v })
      ∷ option_field "ntpservers" (λ n. n.ntpservers) (λ v n. record n { ntpservers = v })
      ∷ option_field "domain" (λ n. n.domain) (λ v n. record n { domain = v })
      ∷ option_field "dynamic_range" (λ n. n.dynamic_range) (λ v n. record n { dynamic_range = v })
      ∷ [];
}

-- objects.OSImage
abbrev pub osimage : Resource OsImage
osimage = record {
  table = images;
  validate = no_check;
  fields =
      text_field "name" (λ m. m.name) (λ v m. record m { name = v })
      ∷ text_field "ver" (λ m. m.ver) (λ v m. record m { ver = v })
      ∷ text_field "arch" (λ m. m.arch) (λ v m. record m { arch = v })
      ∷ text_field "distro" (λ m. m.distro) (λ v m. record m { distro = v })
      ∷ option_field "profile" (λ m. m.profile) (λ v m. record m { profile = v })
      ∷ option_field "provmethod" (λ m. m.provmethod) (λ v m. record m { provmethod = v })
      ∷ option_field "rootfstype" (λ m. m.rootfstype) (λ v m. record m { rootfstype = v })
      ∷ option_field "orig_name" (λ m. m.orig_name) (λ v m. record m { orig_name = v })
      ∷ [];
}

abbrev refused_method : List String → Option (Option String) → Bool
refused_method methods none = false
refused_method methods (some none) = false
refused_method methods (some (some method)) = not (contains methods method)

-- Passwd.validate, for CRYPT_METHODS
unfoldable pub validate_passwd : List String → Dict (Option String) → Result (Unit {0})
validate_passwd methods changes =
    if refused_method methods (lookup "crypt_method" changes) then err invalid_passwd else ok tt

-- objects.Passwd
abbrev pub passwd : List String → Resource Passwd
passwd methods = record {
  table = passwds;
  validate = validate_passwd methods;
  fields =
      text_field "key" (λ p. p.key) (λ v p. record p { key = v })
      ∷ option_field "username" (λ p. p.username) (λ v p. record p { username = v })
      ∷ record {
        name = "password";
        nullable = false;
        get = λ p. p.password;
        put = λ v p. record p { password = v };
      }
      ∷ option_field "crypt_method" (λ p. p.crypt_method) (λ v p. record p { crypt_method = v })
      ∷ [];
}

-- A document, with the values that are None as keys without a value
abbrev pub Document : Type 0
Document = Dict (Option String)

abbrev truth : Option String → Bool
truth none = false
truth (some s) = not (s == "")

-- What apply_jsonpatch looks at.
abbrev pub attributes : Document → Doc
attributes [] = []
attributes ((k, v) ∷ doc) = (k, leaf (truth v)) ∷ attributes doc

-- The package jsonpatch on such documents
abbrev pub Apply : Type 0
Apply = Document → List Patch → Result Document

-- `kwargs.get(k, Unset)`, and then None for Unset
abbrev pub value_in : Document → String → Option String
value_in doc k = elim (lookup k doc) [ none ↦ none | some v ↦ v ]

abbrev pub same_value : Option String → Option String → Bool
same_value none none = true
same_value none (some t) = false
same_value (some s) none = false
same_value (some s) (some t) = s == t

module _ {R : Type 0} where
  -- as_dict
  abbrev pub as_dict : List (Field R) → R → Document
  as_dict [] r = []
  as_dict (f ∷ fields) r = (f.name, f.get r) ∷ as_dict fields r

  -- _update_changed_fields, after the API's object is made of the document. A field that cannot be
  -- None raises a ValueError for None.
  unfoldable pub update_changed_fields : List (Field R) → Document → R → Result R
  update_changed_fields [] doc r = ok r
  update_changed_fields (f ∷ fields) doc r =
      let rest = update_changed_fields fields doc (f.put (value_in doc f.name) r) in
      if is_none (value_in doc f.name) && not f.nullable then err value_error else rest

  -- obj_get_changes, of an object that was `old` when it was loaded
  unfoldable pub obj_get_changes : List (Field R) → R → R → Dict (Option String)
  obj_get_changes [] old r = []
  obj_get_changes (f ∷ fields) old r =
      let rest = obj_get_changes fields old r in
      if same_value (f.get old) (f.get r) then rest else (f.name, f.get r) ∷ rest

  -- What an update with these changes makes of a row.
  unfoldable pub write_changes : List (Field R) → R → R → R → R
  write_changes [] old r row = row
  write_changes (f ∷ fields) old r row =
      write_changes fields old r
        (if same_value (f.get old) (f.get r) then row else f.put (f.get r) row)

abbrev is_patch_exception : Error → Bool
is_patch_exception json_patch_error = true
is_patch_exception key_error = true
is_patch_exception _ = false

-- api_utils.apply_jsonpatch, and PatchError for the exceptions of JSONPATCH_EXCEPTIONS, as
-- `json_patch_error`
unfoldable pub patched_document : Apply → Document → List Patch → Result Document
patched_document apply doc ps = elim (prune (attributes doc) ps) [
  | err e ↦ err (if is_patch_exception e then json_patch_error else e)
  | ok left ↦ elim (apply doc left) [
    | ok doc' ↦ ok doc'
    | err e ↦ err (if is_patch_exception e then json_patch_error else e)
  ]
]

module _ {R : Type 0} (res : Resource R) (engine : Engine) where
  abbrev lift : {A : Type 0} → Result A → Action A
  lift r db = (r, db)

  -- The save of an object that was `old` when it was loaded
  unfoldable pub save : R → R → Action R
  unfolding obj_get_changes write_changes
  save old r =
      lift (res.validate (obj_get_changes res.fields old r))
      >> Tables.update res.table engine (number (res.table.id old)) (write_changes res.fields old r)

  -- get_one
  unfoldable pub get_one : String → Action R
  get_one k = get_by_key res.table k

  -- post, for the row of the values that were sent
  unfoldable pub post : R → Action R
  post row = lift (res.validate (as_dict res.fields row)) >> Tables.create res.table engine row

  -- delete
  unfoldable pub delete : String → Action (Unit {0})
  delete k = do r ← get_by_key res.table k; Tables.destroy res.table engine (res.table.key r)

  -- patch
  unfoldable pub patch : Apply → String → List Patch → Action R
  unfolding save patched_document update_changed_fields
  patch apply k ps = do
    old ← get_by_key res.table k
    doc ← lift (patched_document apply (as_dict res.fields old) ps)
    r ← lift (update_changed_fields res.fields doc old)
    save old r

-- The handlers of networks tell the network services afterwards: the topics of the casts.
unfoldable pub notifying :
    {A : Type 0} → String → (Db → List Service) → Action A → Action (A × List String)
unfolding broadcast
notifying topic services m db =
    let (r, db') = m db in
    elim r [ ok a ↦ (ok (a, broadcast topic (services db')), db') | err e ↦ (err e, db') ]
