-- ===== src/ModProvider/Schema/Expressions/Closed.antt =====
-- The types of expressions refer to nothing of the package's own.
use pulumi_terraform_module.Prelude.{
  String, ◌≡◌, refl, false, ◌&&◌, ◌==◌, Bool-cases, inl, inr, starts_with,
}
use pulumi_terraform_module.ModProvider.Schema
use pulumi_terraform_module.ModProvider.Schema.{SupportingTypes}
use pulumi_terraform_module.ModProvider.Schema.Closed.{IsClosed, not_own}
use pulumi_terraform_module.ModProvider.Schema.Expressions.{
  Expression, call, literal, splat, for_each, other, conditional, traversal, last_is_string_or_null,
  infer_expression_type,
}

plain :
    (types : SupportingTypes) (type ref : String)
    → starts_with ref "#/types/" ≡ false
    → IsClosed types (Schema.make_type type ref Schema.nil Schema.nil)
unfolding IsClosed
plain types type ref other_ref = not_own types type ref Schema.nil Schema.nil other_ref tt tt

any_array : (types : SupportingTypes) → IsClosed types (Schema.array_type Schema.string_type)
unfolding IsClosed
any_array types =
    not_own types "array" "" (Schema.spec Schema.string_type) Schema.nil refl
      (plain types "string" "" refl) tt

-- The inferred type of an expression refers to nothing of the package's own.
pub infer_expression_type-IsClosed :
    (types : SupportingTypes) (e : Expression) → IsClosed types (infer_expression_type e)
unfolding infer_expression_type IsClosed
infer_expression_type-IsClosed types (call name arguments) = elim (Bool-cases (name == "compact")) [
  | inl c ↦ rw c (any_array types)
  | inr c ↦ elim (Bool-cases (name == "try" && last_is_string_or_null arguments)) [
    | inl t ↦ rw (c, t) (plain types "string" "" refl)
    | inr t ↦ rw (c, t) (plain types "" "pulumi.json#/Any" refl)
  ]
]
infer_expression_type-IsClosed types (literal l) = plain types "" "pulumi.json#/Any" refl
infer_expression_type-IsClosed types splat = any_array types
infer_expression_type-IsClosed types for_each = any_array types
infer_expression_type-IsClosed types other = plain types "" "pulumi.json#/Any" refl
infer_expression_type-IsClosed types (conditional t f) = infer_expression_type-IsClosed types t
infer_expression_type-IsClosed types (traversal steps) = plain types "" "pulumi.json#/Any" refl
