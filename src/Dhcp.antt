-- ===== src/Dhcp.antt =====
-- The configuration of the DHCP server: _build_supersede and build_conf of class ISCDHCPService of
-- xcat3/network/dhcp.py. A dictionary is iterated in the order of its list.
use xcat.Prelude.{
  ◌≡◌, ◌∙◌, refl, ap, Bool, true, false, not, ◌&&◌, String, ◌==◌, Option, none, some, List, [], ◌∷◌,
  ◌++◌, Dict, lookup, map, if◌then◌else◌, is_none,
}
use xcat.Db.{key_error, Result, ok, err}
use xcat.Db.Dhcp.{Opts}
use xcat.Ssh.Texts.{concat}
use xcat.Pxe.Tree.{FilePath, Files, write_to_file}

-- DHCP_DICT
abbrev pub dhcp_dict : Dict String
dhcp_dict =
    ("66", "server.server-name")
    ∷ ("67", "server.filename")
    ∷ ("12", "host-name")
    ∷ ("15", "server.ddns-hostname")
    ∷ ("209", "conf-file")
    ∷ []

-- Option 67: one file, or one for each vendor class
pub data Filename : Type 0 where
  text : String → Filename
  by_class : Dict String → Filename

-- `'\n'.join(texts)`
unfoldable pub join : List String → String
join [] = ""
join (s ∷ []) = s
join (s ∷ t ∷ ss) = concat (s ∷ "\n" ∷ join (t ∷ ss) ∷ [])

-- What one vendor class adds to the text, where `first` says that there is none yet.
unfoldable pub class_text : Bool → String → String → String
class_text first k v =
    if first
    then concat (
        "if option vendor-class-identifier = \"" ∷ k ∷ "\" \t{\n  \tsupersede server.filename = \""
        ∷ v ∷ "\";\n\t}" ∷ [])
    else if not (k == "other")
    then concat (
        "\telse if option vendor-class-identifier = \"" ∷ k
        ∷ "\" \t{\n  \tsupersede server.filename = \"" ∷ v ∷ "\";\n\t} " ∷ [])
    else concat (" else { \n\t  supersede server.filename = \"" ∷ v ∷ "\";\n\t} " ∷ [])

unfoldable pub class_texts : Bool → Dict String → List String
unfolding class_text
class_texts first [] = []
class_texts first ((k, v) ∷ opt) = class_text first k v ∷ class_texts false opt

-- The statement of option 67
unfoldable pub filename_statements : Option Filename → List String
unfolding class_texts
filename_statements none = []
filename_statements (some (text t)) =
    concat ("supersede " ∷ "server.filename" ∷ " = \"" ∷ t ∷ "\";" ∷ []) ∷ []
filename_statements (some (by_class opt)) = concat (class_texts true opt) ∷ []

-- The statements of one option that the server calls `name`
unfoldable pub option_statements : String → String → String → List String
option_statements name k v =
    let server =
      if k == "66" then concat ("\tsupersede server.next-server " ∷ v ∷ ";" ∷ []) ∷ [] else [] in
    concat ("\tsupersede " ∷ name ∷ " = \"" ∷ v ∷ "\";" ∷ []) ∷ server

abbrev before : List String → Result (List String) → Result (List String)
before own (err e) = err e
before own (ok more) = ok (own ++ more)

-- The statements of the other options
unfoldable pub statements_of : Dict String → Result (List String)
statements_of [] = ok []
statements_of ((k, v) ∷ opts) =
    let rest = statements_of opts in
    elim (lookup k dhcp_dict) [
      | none ↦ err key_error
      | some name ↦ before (option_statements name k v) rest
    ]

abbrev joined : List String → Result (List String) → Result String
joined own (err e) = err e
joined own (ok statements) = ok (join (own ++ statements))

-- ISCDHCPService._build_supersede, where `opt` is what `opts.pop('67', None)` gives and `opts` what
-- it leaves
unfoldable pub build_supersede : Option Filename → Dict String → Result String
build_supersede opt opts = joined (filename_statements opt) (statements_of opts)

-- The texts of dhcp_global.template, and of dhcp_subnet.template for the options of a subnet
pub record Templates (O : Type 0) : Type 0 where
  pub conf_path : FilePath
  pub lease_path : FilePath
  pub global_cfg : String
  pub render_subnet : O → String

-- `opt['opts']['content']` of the rows of get_dhcp_list
unfoldable pub contents_of : Dict Opts → Result (List String)
contents_of [] = ok []
contents_of ((name, opts) ∷ rows) =
    let rest = contents_of rows in
    elim (lookup "content" opts) [
      | none ↦ err key_error
      | some content ↦ elim rest [ err e ↦ err e | ok more ↦ ok (content ∷ more) ]
    ]

-- ISCDHCPService._build_subnet_cfg
unfoldable pub build_subnet_cfg : {O : Type 0} → Templates O → List O → String
unfolding join
build_subnet_cfg t subnet_opts = join (map t.render_subnet subnet_opts)

-- ISCDHCPService.build_conf, where the lease file is emptied after the configuration is written
unfoldable pub build_conf :
    {O : Type 0} → Templates O → List O → Dict Opts → Files → Result (Unit {0}) × Files
unfolding contents_of build_subnet_cfg
build_conf t subnet_opts rows files = elim (contents_of rows) [
  | err e ↦ (err e, files)
  | ok node_cfgs ↦
      let cfg =
        concat (t.global_cfg ∷ build_subnet_cfg t subnet_opts ∷ "\n" ∷ join node_cfgs ∷ []) in
      (ok tt, write_to_file t.lease_path "" (write_to_file t.conf_path cfg files))
]

abbrev succeeds : {A : Type 0} → Result A → Bool
succeeds (ok a) = true
succeeds (err e) = false

abbrev known : Dict String → Bool
known [] = true
known ((k, v) ∷ opts) = not (is_none (lookup k dhcp_dict)) && known opts

succeeds-before :
    (own : List String) (rest : Result (List String)) → succeeds (before own rest) ≡ succeeds rest
succeeds-before own (err e) = refl
succeeds-before own (ok more) = refl

succeeds-step :
    (name : Option String) (k v : String) (rest : Result (List String))
    → succeeds (elim name [ none ↦ err key_error | some n ↦ before (option_statements n k v) rest ])
      ≡ (not (is_none name) && succeeds rest)
succeeds-step none k v rest = refl
succeeds-step (some n) k v rest = succeeds-before (option_statements n k v) rest

statements_of-known : (opts : Dict String) → succeeds (statements_of opts) ≡ known opts
unfolding statements_of
statements_of-known [] = refl
statements_of-known ((k, v) ∷ opts) =
    succeeds-step (lookup k dhcp_dict) k v (statements_of opts)
    ∙ ap (λ b. not (is_none (lookup k dhcp_dict)) && b) (statements_of-known opts)

succeeds-joined :
    (own : List String) (rest : Result (List String)) → succeeds (joined own rest) ≡ succeeds rest
succeeds-joined own (err e) = refl
succeeds-joined own (ok statements) = refl

-- _build_supersede returns if and only if every option has a name.
build_supersede-known :
    (opt : Option Filename) (opts : Dict String) → succeeds (build_supersede opt opts) ≡ known opts
unfolding build_supersede
build_supersede-known opt opts =
    succeeds-joined (filename_statements opt) (statements_of opts) ∙ statements_of-known opts
