-- ===== src/ModProvider/Schema/Expressions.antt =====
-- pkg/modprovider/tfmodules.go: the types of the expressions of outputs, as far as the code infers them.
use pulumi_terraform_module.Prelude.{
  String, Bool, true, false, ◌&&◌, Option, none, some, List, [], ◌∷◌, ◌==◌, if◌then◌else◌,
}
use pulumi_terraform_module.ModProvider.Schema.{TypeSpec, string_type, any_type, array_type}
pub mod Closed

-- `hcl.Expression`: the shapes that the code tells apart.
-- The type of a literal: of a string, dynamic (`null`), or any other.
pub data LiteralType : Type 0 where
  of_string of_dynamic of_other : LiteralType

pub data Step : Type 0 where
  root attr : String → Step
  index : Step

mutual
  pub data Expression : Type 0 where
    call : String → Arguments → Expression
    literal : LiteralType → Expression
    splat for_each other : Expression
    -- the condition's result if true, and if false
    conditional : Expression → Expression → Expression
    traversal : List Step → Expression

  pub data Arguments : Type 0 where
    nil : Arguments
    cons : Expression → Arguments → Arguments

-- `functionCall.Args[len(functionCall.Args)-1]`
abbrev pub last_of : Expression → Arguments → Expression
last_of e nil = e
last_of e (cons next rest) = last_of next rest

-- A literal of type string or dynamic.
abbrev pub is_string_or_null : Expression → Bool
is_string_or_null (literal of_string) = true
is_string_or_null (literal of_dynamic) = true
is_string_or_null _ = false

abbrev pub last_is_string_or_null : Arguments → Bool
last_is_string_or_null nil = false
last_is_string_or_null (cons e rest) = is_string_or_null (last_of e rest)

-- `inferExpressionType`
unfoldable pub infer_expression_type : Expression → TypeSpec
infer_expression_type (call name arguments) =
    if name == "compact"
    then array_type string_type
    else if name == "try" && last_is_string_or_null arguments
    then string_type
    else any_type
infer_expression_type splat = array_type string_type
infer_expression_type (conditional if_true if_false) = infer_expression_type if_true
infer_expression_type for_each = array_type string_type
infer_expression_type _ = any_type

-- `isVariableReference`
unfoldable pub is_variable_reference : Expression → Option String
is_variable_reference (traversal (root name ∷ attr variable ∷ [])) =
    if name == "var" then some variable else none
is_variable_reference _ = none
