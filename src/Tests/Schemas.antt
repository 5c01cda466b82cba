-- ===== src/Tests/Schemas.antt =====
-- Schemas at concrete values.
use pulumi_terraform_module.Prelude.{
  ℕ, String, ◌<>◌, ◌≡◌, refl, Bool, true, false, Option, none, some, [], ◌∷◌, ◌==◌, if◌then◌else◌,
  ltb, arith,
}
use pulumi_terraform_module.Prelude.Text.{split_on}
use pulumi_terraform_module.Prelude.Outcome.{ok}
use pulumi_terraform_module.Prelude.Dict.{lookup, insert}
use pulumi_terraform_module.TfSandbox.Keys.{
  pulumi_top_level_key, is_valid_pulumi_top_level_key, is_reserved_custom_resource_property_key,
}
use pulumi_terraform_module.ModProvider.Schema
use pulumi_terraform_module.ModProvider.Schema.{
  CtyType, Attributes, TypeSpec, make_type, convert_type, object_type_token,
  format_pascal_case_type_name,
}
use pulumi_terraform_module.ModProvider.Schema.Expressions.{
  traversal, root, attr, infer_expression_type, is_variable_reference, conditional, call, nil, cons,
  literal, of_string, other,
}
use pulumi_terraform_module.ModProvider.Schema.Infer.{
  Module, PropertySpec, InferredModuleSchema, infer_module_schema, infer_inputs, infer_outputs,
  infer_providers, undash, contains_dash,
}
use pulumi_terraform_module.ModProvider.Schema.Infer.Laws.{IsSchema, infer_module_schema-IsSchema}
use pulumi_terraform_module.ModProvider.Schema.Infer.Returns.{infer_module_schema_total}
use pulumi_terraform_module.ModProvider.Schema.Combine.{
  combine_schema, combine_with, merged_input_type,
}
use pulumi_terraform_module.ModProvider.Schema.Versions.{
  Registry, registry, latest_module_version, latest_in, latest_loop,
}
use pulumi_terraform_module.ModProvider.Schema.Versions.Laws.{
  IsOrder, IsLatest, latest_module_version-greatest,
}
use pulumi_terraform_module.ModProvider.Overrides.{add_required}

abbrev title : String → String
title part = if part == "tags" then "Tags" else if part == "rule" then "Rule" else part

abbrev tags : CtyType
tags = CtyType.object (Attributes.attribute "rule" (CtyType.object Attributes.end) Attributes.end)

abbrev content : Module
content = record {
  required_providers = some ("aws" ∷ "my-cloud" ∷ []);
  variables =
      (
        "tags",
        record {
          type = CtyType.list tags;
          description = "";
          sensitive = false;
          nullable_set = false;
          nullable = true;
          has_default = false;
        },
      )
      ∷ [];
  outputs =
      (
        "all",
        record {
          expr = traversal (root "var" ∷ attr "tags" ∷ []);
          description = "";
          sensitive = true;
        },
      )
      ∷ [];
}

abbrev tags_type : TypeSpec
tags_type = Schema.array_type (Schema.ref_type "#/types/vpc:index:Tags")

abbrev property : Bool → TypeSpec → PropertySpec
property hides t = record { description = ""; hides = hides; spec = t; environment = [] }

abbrev provider_named : String → PropertySpec
provider_named name = record {
  description = "provider configuration for " <> name;
  hides = false;
  spec = Schema.map_type Schema.any_type;
  environment = [];
}

abbrev inferred : InferredModuleSchema
inferred = record {
  inputs = ("tags", some (property false tags_type)) ∷ [];
  outputs = ("all", some (property true tags_type)) ∷ [];
  supporting_types =
      ("vpc:index:TagsRule", some (record { type = "object"; properties = [] }))
      ∷ (
        "vpc:index:Tags",
        some (record {
          type = "object";
          properties = ("rule", Schema.ref_type "#/types/vpc:index:TagsRule") ∷ [];
        }),
      )
      ∷ [];
  required_inputs = "tags" ∷ [];
  non_nil_outputs = [];
  providers_config = ("aws", provider_named "aws") ∷ ("my_cloud", provider_named "my_cloud") ∷ [];
  provider_field_mappings = ("my_cloud", "my-cloud") ∷ [];
  input_field_mappings = [];
  output_field_mappings = [];
}

infer_module_schema_run : infer_module_schema title "vpc" content ≡ ok inferred
unfolding infer_module_schema infer_providers infer_inputs infer_outputs convert_type
    object_type_token format_pascal_case_type_name split_on is_variable_reference undash
    contains_dash pulumi_top_level_key is_valid_pulumi_top_level_key
    is_reserved_custom_resource_property_key insert lookup
infer_module_schema_run = refl

infer_module_schema-IsSchema_example : IsSchema inferred
infer_module_schema-IsSchema_example =
    infer_module_schema-IsSchema title "vpc" content inferred infer_module_schema_run

infer_module_schema_total_example :
    (out : InferredModuleSchema) × (infer_module_schema title "vpc" content ≡ ok out)
unfolding is_variable_reference lookup
infer_module_schema_total_example = infer_module_schema_total title "vpc" content (refl, tt)

-- The type of a conditional is that of its first result, and `try` ends in a default.
infer_expression_type_run :
    infer_expression_type
      (conditional (call "try" (cons other (cons (literal of_string) nil))) other)
    ≡ Schema.string_type
unfolding infer_expression_type
infer_expression_type_run = refl

abbrev partial : InferredModuleSchema
partial = record {
  inputs = ("tags", some (property true (Schema.map_type Schema.string_type))) ∷ [];
  outputs = ("id", some (property false Schema.string_type)) ∷ [];
  supporting_types = [];
  required_inputs = "tags" ∷ "name" ∷ [];
  non_nil_outputs = "id" ∷ [];
  providers_config = [];
  provider_field_mappings = [];
  input_field_mappings = [];
  output_field_mappings = [];
}

abbrev combined : InferredModuleSchema
combined = record inferred {
  inputs = ("tags", some (property true (Schema.map_type Schema.string_type))) ∷ [];
  outputs =
      ("all", some (property true tags_type))
      ∷ ("id", some (property false Schema.string_type))
      ∷ [];
  required_inputs = "tags" ∷ "name" ∷ [];
  non_nil_outputs = "id" ∷ [];
}

combine_schema_run : combine_schema inferred (some partial) ≡ ok combined
unfolding combine_schema combine_with add_required insert lookup
combine_schema_run = refl

-- An input keeps its reference when a partial schema makes an array of it.
stale_reference :
    merged_input_type Schema.any_type (Schema.array_type Schema.string_type)
    ≡ make_type "array" "pulumi.json#/Any" (Schema.spec Schema.string_type) Schema.nil
stale_reference = refl

abbrev number_of : String → Option ℕ
number_of text =
    if text == "1"
    then some 1
    else if text == "2"
    then some 2
    else if text == "3-rc"
    then some 3
    else none

abbrev versions : Registry ℕ
versions = record {
  new_version = number_of;
  is_prerelease = λ v. ltb 2 v;
  greater_than = λ a b. ltb b a;
  no_version = 0;
  parse_source = λ source. registry source;
  module_versions = λ source. ok ("1" ∷ "3-rc" ∷ "2" ∷ []);
}

versions_order : IsOrder versions
versions_order = record {
  asymmetric = λ a b h. ground arith;
  transitive = λ a b c h k. ground arith;
}

latest_run : latest_module_version versions "aws/vpc" ≡ ok 2
unfolding latest_module_version latest_in latest_loop
latest_run = refl

latest_module_version-greatest_example : IsLatest versions "aws/vpc" 2
latest_module_version-greatest_example =
    latest_module_version-greatest versions versions_order "aws/vpc" "aws/vpc" 2 refl latest_run
