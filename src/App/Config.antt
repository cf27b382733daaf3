-- ===== src/App/Config.antt =====
-- app/config_reader.go: the application's configuration and those of its services, read from a YAML
-- document or from a struct. yaml.Unmarshal and Node.Decode are parameters; a range over the map of
-- services visits them in the list's order.
pub mod Complete
mod Tests
use goblocks.Prelude.Eq.{◌==◌, nat_eq, int_eq, string_eq}
use goblocks.Prelude.Map
use goblocks.Prelude.Map.{Map, get, put}
use goblocks.Prelude.{
  String, Bool, true, false, not, Option, none, some, List, [], ◌∷◌, if◌then◌else◌,
}
use goblocks.Conftool.Fields.{
  Fields, leaf, nested, FieldPath, Parsers, Checked, complete, not_set, panics,
  defaults_and_required,
}

-- A struct with its type.
pub record StructValue : Type 0 where
  pub typ : String
  pub fields : Fields

-- registeredService without its factory, and what of the application the configuration goes to
pub record RegisteredService : Type 0 where
  pub name : String
  pub config : StructValue

pub record Application : Type 0 where
  pub cfg : StructValue
  pub service_defs : List RegisteredService

pub data ConfigError : Type 0 where
  not_yaml empty_config not_struct : ConfigError
  decode_failed : String → ConfigError
  missing_value : String → List FieldPath → ConfigError
  copy_failed : String → ConfigError

pub data Outcome {ℓ} (A : Type ℓ) : Type ℓ where
  ok : A → Outcome A
  err : ConfigError → Outcome A
  panic : Outcome A

infixl 5 ◌>>=◌
abbrev pub ◌>>=◌ {ℓ κ} : {A : Type ℓ} {B : Type κ} → Outcome A → (A → Outcome B) → Outcome B
ok a >>= f = f a
err e >>= f = err e
panic >>= f = panic

-- What DefaultsAndRequired makes of a configuration of the section `name`.
abbrev pub required_set : String → String → Checked → Outcome StructValue
required_set name typ (complete fs) = ok (record { typ = typ; fields = fs })
required_set name typ (not_set fs reqs) = err (missing_value name reqs)
required_set name typ panics = panic

pub with_defaults : Parsers → String → StructValue → Outcome StructValue
with_defaults p name cfg = required_set name cfg.typ (defaults_and_required p cfg.fields)

pub finish_services : Parsers → List RegisteredService → Outcome (List RegisteredService)
unfolding with_defaults
finish_services p [] = ok []
finish_services p (s ∷ services) = do
  cfg ← with_defaults p s.name s.config
  rest ← finish_services p services
  ok (record s { config = cfg } ∷ rest)

module _ {N : Type 0} (p : Parsers) (value : N → String)
    (decode : N → StructValue → Option Fields) where
  -- the loop over the top-level mapping, whose keys and values alternate
  pub root_nodes : Map String N → List N → Outcome (Map String N)
  root_nodes nodes [] = ok nodes
  root_nodes nodes (key ∷ []) = panic
  root_nodes nodes (key ∷ val ∷ rest) = root_nodes (put nodes (value key) val) rest

  -- node.Decode of a section, if the document has it
  pub decode_section : Map String N → String → StructValue → Outcome StructValue
  decode_section nodes name cfg = elim (get nodes name) [
    | none ↦ ok cfg
    | some node ↦ elim (decode node cfg) [
      | none ↦ err (decode_failed name)
      | some fs ↦ ok (record cfg { fields = fs })
    ]
  ]

  pub decode_services : Map String N → List RegisteredService → Outcome (List RegisteredService)
  unfolding decode_section
  decode_services nodes [] = ok []
  decode_services nodes (s ∷ services) = do
    cfg ← decode_section nodes s.name s.config
    rest ← decode_services nodes services
    ok (record s { config = cfg } ∷ rest)

  -- readConfigData: `root` is the content of the document's top-level node after Unmarshal, `none`
  -- within for a document without content
  pub read_config_data : Application → Option (Option (List N)) → Outcome Application
  unfolding root_nodes decode_section decode_services finish_services with_defaults
  read_config_data a none = err not_yaml
  read_config_data a (some none) = err empty_config
  read_config_data a (some (some content)) = do
    nodes ← root_nodes [] content
    app ← decode_section nodes "app" a.cfg
    cfg ← with_defaults p "app" app
    services ← decode_services nodes a.service_defs
    finished ← finish_services p services
    ok (record { cfg = cfg; service_defs = finished })

-- the loop of copySameType, over structs of one type: fields that are not exported keep their value
pub copy_fields : Fields → Fields → Fields
copy_fields (leaf n t true v rest) (leaf n' t' s' v' rest') =
    leaf n t true v' (copy_fields rest rest')
copy_fields (leaf n t false v rest) (leaf n' t' s' v' rest') =
    leaf n t false v (copy_fields rest rest')
copy_fields (nested n true sub rest) (nested n' e' sub' rest') =
    nested n true sub' (copy_fields rest rest')
copy_fields (nested n false sub rest) (nested n' e' sub' rest') =
    nested n false sub (copy_fields rest rest')
copy_fields dst src = dst

-- copySameType; `none` for a source that is no struct
pub copy_same_type : String → StructValue → Option StructValue → Outcome StructValue
unfolding copy_fields
copy_same_type section dst none = err (copy_failed section)
copy_same_type section dst (some src) =
    if dst.typ == src.typ
    then ok (record dst { fields = copy_fields dst.fields src.fields })
    else err (copy_failed section)

-- A field of the struct given to applyConfigStruct: its yaml tag up to the comma, whether it can be
-- read, and its value, if that is a struct.
pub record Section : Type 0 where
  pub yaml_key : String
  pub can_interface : Bool
  pub value : Option StructValue

-- a.serviceDefs[yamlKey], changed in place
pub apply_to_service :
    Parsers
    → String
    → Option StructValue
    → List RegisteredService
    → Outcome (List RegisteredService)
unfolding copy_same_type with_defaults
apply_to_service p key src [] = ok []
apply_to_service p key src (s ∷ services) =
    let here = do
      copied ← copy_same_type s.name s.config src
      cfg ← with_defaults p s.name copied
      ok (record s { config = cfg } ∷ services)
    in let further = apply_to_service p key src services >>= λ rest. ok (s ∷ rest) in
      if s.name == key then here else further

-- one round of the loop of applyConfigStruct
pub apply_section : Parsers → Application → Section → Outcome Application
unfolding apply_to_service copy_same_type with_defaults
apply_section p a s =
    if s.yaml_key == ""
    then ok a
    else if not s.can_interface
    then ok a
    else if s.yaml_key == "app"
    then (copy_same_type "app" a.cfg s.value >>= λ copied.
        with_defaults p "app" copied >>= λ cfg. ok (record a { cfg = cfg }))
    else (apply_to_service p s.yaml_key s.value a.service_defs >>= λ services.
        ok (record a { service_defs = services }))

-- applyConfigStruct; `none` for a source that is no struct
pub apply_config_struct : Parsers → Application → Option (List Section) → Outcome Application
unfolding apply_section
apply_config_struct p a none = err not_struct
apply_config_struct p a (some []) = ok a
apply_config_struct p a (some (s ∷ sections)) =
    apply_section p a s >>= λ b. apply_config_struct p b (some sections)
