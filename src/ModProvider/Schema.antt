-- ===== src/ModProvider/Schema.antt =====
-- pkg/modprovider/tfmodules.go: the Pulumi types of terraform's types. `title` is `strings.Title`.
use Prim.Native.Char.{code}
use pulumi_terraform_module.Prelude.{
  String, ◌<>◌, Bool, true, false, ◌||◌, Option, none, some, List, [], ◌∷◌, ◌==◌, if◌then◌else◌,
  eqb,
}
use pulumi_terraform_module.Prelude.Text.{split_on}
use pulumi_terraform_module.Prelude.Dict.{Dict, insert}
pub mod Closed
pub mod Expressions
pub mod Infer
pub mod Combine
pub mod Versions

-- `cty.Type`; any other type is a tuple or a capsule.
mutual
  pub data CtyType : Type 0 where
    string number bool dynamic other : CtyType
    list set map : CtyType → CtyType
    object : Attributes → CtyType

  pub data Attributes : Type 0 where
    end : Attributes
    attribute : String → CtyType → Attributes → Attributes

-- `schema.TypeSpec`: `Type`, `Ref`, `Items`, `AdditionalProperties`
mutual
  pub data TypeSpec : Type 0 where
    make_type : String → String → Nested → Nested → TypeSpec

  -- A pointer to a type.
  pub data Nested : Type 0 where
    nil : Nested
    spec : TypeSpec → Nested

-- `schema.ComplexTypeSpec`
pub record ComplexTypeSpec : Type 0 where
  pub type : String
  pub properties : Dict TypeSpec

abbrev pub SupportingTypes : Type 0
SupportingTypes = Dict (Option ComplexTypeSpec)

abbrev pub string_type : TypeSpec
string_type = make_type "string" "" nil nil

abbrev pub number_type : TypeSpec
number_type = make_type "number" "" nil nil

abbrev pub bool_type : TypeSpec
bool_type = make_type "boolean" "" nil nil

abbrev pub any_type : TypeSpec
any_type = make_type "" "pulumi.json#/Any" nil nil

abbrev pub ref_type : String → TypeSpec
ref_type ref = make_type "" ref nil nil

abbrev pub array_type : TypeSpec → TypeSpec
array_type element = make_type "array" "" (spec element) nil

abbrev pub map_type : TypeSpec → TypeSpec
map_type element = make_type "object" "" nil (spec element)

module _ (title : String → String) where
  abbrev pub join_titles : List String → String
  join_titles [] = ""
  join_titles (part ∷ parts) = title part <> join_titles parts

  -- `formatPascalCaseTypeName`
  unfoldable pub format_pascal_case_type_name : String → String
  unfolding split_on
  format_pascal_case_type_name type_name = join_titles (split_on b'_' type_name)

  -- `objectTypeToken`
  unfoldable pub object_type_token : String → String → String
  unfolding format_pascal_case_type_name
  object_type_token pkg type_name = pkg <> ":index:" <> format_pascal_case_type_name type_name

  -- The end of the branch for objects.
  abbrev pub add_object : String → Dict TypeSpec × SupportingTypes → TypeSpec × SupportingTypes
  add_object token (properties, types) = (
    ref_type ("#/types/" <> token),
    insert token (some (record { type = "object"; properties = properties })) types,
  )

  abbrev pub over_element :
      (TypeSpec → TypeSpec) → TypeSpec × SupportingTypes → TypeSpec × SupportingTypes
  over_element wrap (element, types) = (wrap element, types)

  -- `convertType`: the type, and the supporting types afterwards
  unfoldable mutual
    unfolding object_type_token

    pub convert_type : String → CtyType → String → SupportingTypes → TypeSpec × SupportingTypes
    convert_type pkg string type_name types = (string_type, types)
    convert_type pkg number type_name types = (number_type, types)
    convert_type pkg bool type_name types = (bool_type, types)
    convert_type pkg (list t) type_name types =
        over_element array_type (convert_type pkg t type_name types)
    convert_type pkg (set t) type_name types =
        over_element array_type (convert_type pkg t type_name types)
    convert_type pkg (map t) type_name types =
        over_element map_type (convert_type pkg t type_name types)
    convert_type pkg (object attributes) type_name types =
        add_object (object_type_token pkg type_name)
          (convert_attributes pkg attributes type_name [] types)
    convert_type pkg dynamic type_name types = (any_type, types)
    convert_type pkg other type_name types = (string_type, types)

    -- The loop over the attributes.
    pub convert_attributes :
        String
        → Attributes
        → String
        → Dict TypeSpec
        → SupportingTypes
        → Dict TypeSpec × SupportingTypes
    convert_attributes pkg end type_name properties types = (properties, types)
    convert_attributes pkg (attribute name t rest) type_name properties types =
        let converted = convert_type pkg t (type_name <> "_" <> name) types in
        convert_attributes pkg rest type_name (insert name (converted.0) properties) (converted.1)
