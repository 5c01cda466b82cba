-- ===== src/TfSandbox/Resources.antt =====
-- pkg/tfsandbox/resources.go: the resources of a state document by address, and their properties.
-- The SDK's conversion of JSON (`resource.NewPropertyValueRepl` with `replaceJSONNumberValue`) and
-- `json.Unmarshal` are parameters.
use pulumi_terraform_module.Prelude.{
  String, ◌<>◌, Bool, Option, none, some, List, [], ◌∷◌, ◌==◌, if◌then◌else◌,
}
use pulumi_terraform_module.Prelude.Outcome.{Outcome, ok, err, panic, ◌>>=◌}
use pulumi_terraform_module.Prelude.Dict.{Dict, insert}
use pulumi_terraform_module.Pulumi.Json
use pulumi_terraform_module.Pulumi.Json.{Json, Members}
use pulumi_terraform_module.Pulumi.Value
use pulumi_terraform_module.Pulumi.Value.{PropertyValue, PropertyMap, object, computed, string}
use pulumi_terraform_module.TfSandbox.Secrets.{make_secret_conservative}
use pulumi_terraform_module.TfSandbox.Replace.{update_resource_value, fields_of}
pub mod Laws

-- `tfjson.StateResource`; `is_data` is `Mode == DataResourceMode`.
pub record StateResource : Type 0 where
  pub address : String
  pub type_name : String
  pub is_data : Bool
  pub attribute_values : Members
  pub sensitive_values : Option String

-- `tfjson.StateModule`
mutual
  pub data StateModule : Type 0 where
    make_module : List StateResource → ChildModules → StateModule

  pub data ChildModules : Type 0 where
    end : ChildModules
    child : StateModule → ChildModules → ChildModules

abbrev pub unknown_proxy_resource_type : String
unknown_proxy_resource_type = "pulumiaux_unk"

abbrev pub unknown_proxy_resource_name : String
unknown_proxy_resource_name = "unknown_proxy"

abbrev pub unknown_proxy_address : String
unknown_proxy_address = unknown_proxy_resource_type <> "." <> unknown_proxy_resource_name

abbrev pub StateResources : Type 0
StateResources = Dict StateResource

-- The loop over `module.Resources`.
unfoldable pub add_resources : List StateResource → StateResources → StateResources
add_resources [] sr = sr
add_resources (r ∷ rs) sr = add_resources rs (
    if r.is_data
    then sr
    else if r.address == unknown_proxy_address
    then sr
    else insert r.address r sr)

unfoldable mutual
  unfolding add_resources

  -- `extractResourcesFromStateModule`: the children first
  pub extract_resources : StateModule → StateResources → StateResources
  extract_resources (make_module rs children) sr = add_resources rs (extract_children children sr)

  extract_children : ChildModules → StateResources → StateResources
  extract_children ChildModules.end sr = sr
  extract_children (child m rest) sr = extract_children rest (extract_resources m sr)

-- `newStateResources`
unfoldable pub new_state_resources : Option StateModule → StateResources
unfolding extract_resources
new_state_resources none = []
new_state_resources (some m) = extract_resources m []

-- `unknown()`, and what replaces a value that `after_unknown` marks
abbrev pub unknown : PropertyValue
unknown = computed (string "")

-- `tfjson.Change`: `null` stands for a nil `interface{}`. The fields below `actions` are the answers of
-- the tests on `Actions`.
pub record Actions : Type 0 where
  pub no_op : Bool
  pub update : Bool
  pub create_before_destroy : Bool
  pub destroy_before_create : Bool
  pub create : Bool
  pub read : Bool
  pub delete : Bool
  pub forget : Bool

pub record Change : Type 0 where
  pub actions : Actions
  pub before : Json
  pub after : Json
  pub after_unknown : Json
  pub before_sensitive : Json
  pub after_sensitive : Json

pub record ResourceChange : Type 0 where
  pub address : String
  pub type_name : String
  pub is_data : Bool
  pub change : Option Change

-- `if filter != nil { objectProperty = updateResourceValue(objectProperty, filter, replv) }`
unfoldable pub update_unless_null :
    (PropertyValue → PropertyValue) → Json → PropertyValue → Outcome PropertyValue
unfolding update_resource_value
update_unless_null replv Json.null v = ok v
update_unless_null replv f v = update_resource_value replv v f

-- `objectProperty.ObjectValue()`, which panics on another property
abbrev pub object_value : PropertyValue → Outcome PropertyMap
object_value (object m) = ok m
object_value _ = panic

module _ (new_value : Json → PropertyValue) where
  -- `extractPropertyMapFromAttributeValues`
  unfoldable pub from_attribute_values : Members → PropertyMap
  unfolding Value.insert
  from_attribute_values Members.end = PropertyMap.end
  from_attribute_values (Members.member k v ms) =
      Value.insert k (new_value v) (from_attribute_values ms)

  -- `extractPropertyMapFromPlan`; `resourceChange` is never nil there, and its `Change` is read.
  unfoldable pub from_plan : StateResource → ResourceChange → Outcome PropertyMap
  unfolding from_attribute_values update_unless_null make_secret_conservative
  from_plan r rc = elim rc.change [
    | none ↦ panic
    | some c ↦ do
      v ←
          update_unless_null (λ _. unknown) c.after_unknown
            (object (from_attribute_values r.attribute_values))
      w ← update_unless_null make_secret_conservative c.after_sensitive v
      object_value w
  ]

  module _ (unmarshal : String → Option Json) where
    -- `extractPropertyMapFromState`
    unfoldable pub from_state : StateResource → Outcome PropertyMap
    unfolding from_attribute_values update_resource_value make_secret_conservative
    from_state r = elim r.sensitive_values [
      | none ↦ ok (from_attribute_values r.attribute_values)
      | some text ↦ elim (unmarshal text) [
        | none ↦ panic
        | some f ↦ do
          v ←
              update_resource_value make_secret_conservative
                (object (from_attribute_values r.attribute_values)) f
          object_value v
      ]
    ]
