-- ===== src/ModProvider/Schema/Closed.antt =====
-- The references of converted types.
use pulumi_terraform_module.Prelude.{
  String, ◌<>◌, ◌≡◌, refl, ap, true, false, Option, some, some-injective, [], ◌==◌, eq_refl,
  Bool-cases, inl, inr, is_some, starts_with,
}
use pulumi_terraform_module.Prelude.Text.{starts_with-append}
use pulumi_terraform_module.Prelude.Dict.{Dict, lookup, insert, lookup-insert}
use pulumi_terraform_module.ModProvider.Schema.{
  CtyType, Attributes, TypeSpec, make_type, Nested, ComplexTypeSpec, SupportingTypes, convert_type,
  convert_attributes, object_type_token, ref_type, add_object,
}
use text.Mathlib.TextLemmas.{append_cancel_left}

-- Every reference of the package's own in the type is to one of the supporting types.
unfoldable mutual
  pub IsClosed : SupportingTypes → TypeSpec → Type 0
  IsClosed types (make_type type ref items additional) =
      ((token : String) → ref ≡ "#/types/" <> token → is_some (lookup token types) ≡ true)
      × IsClosedNested types items
      × IsClosedNested types additional

  pub IsClosedNested : SupportingTypes → Nested → Type 0
  IsClosedNested types Nested.nil = Unit
  IsClosedNested types (Nested.spec t) = IsClosed types t

-- Every property is closed.
abbrev pub AreClosed : SupportingTypes → Dict TypeSpec → Type 0
AreClosed types properties =
    (name : String) (t : TypeSpec) → lookup name properties ≡ some t → IsClosed types t

-- Every supporting type is closed.
abbrev pub TypesClosed : SupportingTypes → Type 0
TypesClosed types =
    (token : String) (c : ComplexTypeSpec)
    → lookup token types ≡ some (some c)
    → AreClosed types c.properties

abbrev pub Keeps : SupportingTypes → SupportingTypes → Type 0
Keeps types types' =
    (token : String) → is_some (lookup token types) ≡ true → is_some (lookup token types') ≡ true

mutual
  unfolding IsClosed

  pub IsClosed-Keeps :
      (types types' : SupportingTypes) (t : TypeSpec)
      → Keeps types types'
      → IsClosed types t
      → IsClosed types' t
  IsClosed-Keeps types types' (make_type type ref items additional) kept (own, i, a) = (
    λ token here. kept token (own token here),
    IsClosedNested-Keeps types types' items kept i,
    IsClosedNested-Keeps types types' additional kept a,
  )

  IsClosedNested-Keeps :
      (types types' : SupportingTypes) (n : Nested)
      → Keeps types types'
      → IsClosedNested types n
      → IsClosedNested types' n
  IsClosedNested-Keeps types types' Nested.nil kept c = tt
  IsClosedNested-Keeps types types' (Nested.spec t) kept c = IsClosed-Keeps types types' t kept c

Keeps-insert :
    (token : String) (c : Option ComplexTypeSpec) (types : SupportingTypes)
    → Keeps types (insert token c types)
Keeps-insert token c types other has = elim (Bool-cases (token == other)) [
  | inl e ↦ rw (lookup-insert token other c types, e) refl
  | inr e ↦ rw (lookup-insert token other c types, e) has
]

AreClosed-insert :
    (types : SupportingTypes) (name : String) (t : TypeSpec) (properties : Dict TypeSpec)
    → IsClosed types t
    → AreClosed types properties
    → AreClosed types (insert name t properties)
AreClosed-insert types name t properties closed others wanted u has =
    elim (Bool-cases (name == wanted)) [
      | inl e ↦
          rw (← some-injective t u (rw (lookup-insert name wanted t properties, e) at has)) closed
      | inr e ↦ others wanted u (rw (lookup-insert name wanted t properties, e) at has)
    ]

first_key :
    (token : String) (c : Option ComplexTypeSpec) (types : SupportingTypes)
    → is_some (lookup token (insert token c types)) ≡ true
first_key token c types = rw (lookup-insert token token c types, eq_refl token) refl

TypesClosed-insert :
    (types : SupportingTypes) (token : String) (c : ComplexTypeSpec)
    → AreClosed types c.properties
    → TypesClosed types
    → TypesClosed (insert token (some c) types)
TypesClosed-insert types token c closed others wanted d has name t here =
    IsClosed-Keeps types (insert token (some c) types) t (Keeps-insert token (some c) types)
      (elim (Bool-cases (token == wanted)) [
        | inl e ↦
            let same : some c ≡ some d =
              some-injective _ _ (rw (lookup-insert token wanted (some c) types, e) at has) in
            closed name t (rw (← some-injective c d same) at here)
        | inr e ↦
            others wanted d (rw (lookup-insert token wanted (some c) types, e) at has) name t here
      ])

-- A type without a reference of the package's own, with the elements of `items` and `additional`.
pub not_own :
    (types : SupportingTypes) (type ref : String) (items additional : Nested)
    → starts_with ref "#/types/" ≡ false
    → IsClosedNested types items
    → IsClosedNested types additional
    → IsClosed types (make_type type ref items additional)
unfolding IsClosed
not_own types type ref items additional other i a = (
  λ token here.
      cc (ap (λ r. starts_with r "#/types/") here, other, starts_with-append "#/types/" token),
  i,
  a,
)

-- A reference to a supporting type.
ref_type-IsClosed :
    (types : SupportingTypes) (token : String)
    → is_some (lookup token types) ≡ true
    → IsClosed types (ref_type ("#/types/" <> token))
unfolding IsClosed
ref_type-IsClosed types token has =
    (λ other here. rw (← append_cancel_left "#/types/" token other here) has, tt, tt)

none_closed : (types : SupportingTypes) → AreClosed types []
unfolding lookup
none_closed types name t has = cc

module _ (title : String → String) where
  -- What a conversion that started with `types` gives.
  abbrev pub Converts : SupportingTypes → TypeSpec × SupportingTypes → Type 0
  Converts types (t, types') = IsClosed types' t × TypesClosed types' × Keeps types types'

  abbrev ConvertsAll : SupportingTypes → Dict TypeSpec × SupportingTypes → Type 0
  ConvertsAll types (properties, types') =
      AreClosed types' properties × TypesClosed types' × Keeps types types'

  leaf :
      (types : SupportingTypes) (type ref : String)
      → starts_with ref "#/types/" ≡ false
      → TypesClosed types
      → Converts types (make_type type ref Nested.nil Nested.nil, types)
  unfolding IsClosed
  leaf types type ref other closed =
      (not_own types type ref Nested.nil Nested.nil other tt tt, closed, λ token has. has)

  add_object-Converts :
      (token : String) (types : SupportingTypes) (converted : Dict TypeSpec × SupportingTypes)
      → ConvertsAll types converted
      → Converts types (add_object title token converted)
  add_object-Converts token types (properties, types') (all, closed, kept) =
      let new : ComplexTypeSpec = record { type = "object"; properties = properties } in
      let more = Keeps-insert token (some new) types' in
      (
        ref_type-IsClosed (insert token (some new) types') token
            (first_key token (some new) types'),
        TypesClosed-insert types' token new all closed,
        λ other has. more other (kept other has),
      )

  mutual
    unfolding convert_type IsClosed

    pub convert_type-Converts :
        (pkg : String) (t : CtyType) (type_name : String) (types : SupportingTypes)
        → TypesClosed types
        → Converts types (convert_type title pkg t type_name types)
    convert_type-Converts pkg CtyType.string type_name types closed =
        leaf types "string" "" refl closed
    convert_type-Converts pkg CtyType.number type_name types closed =
        leaf types "number" "" refl closed
    convert_type-Converts pkg CtyType.bool type_name types closed =
        leaf types "boolean" "" refl closed
    convert_type-Converts pkg CtyType.dynamic type_name types closed =
        leaf types "" "pulumi.json#/Any" refl closed
    convert_type-Converts pkg CtyType.other type_name types closed =
        leaf types "string" "" refl closed
    convert_type-Converts pkg (CtyType.list t) type_name types closed =
        let (c, all, kept) = convert_type-Converts pkg t type_name types closed in
        (
          not_own _ "array" "" (Nested.spec ((convert_type title pkg t type_name types).0))
              Nested.nil refl c tt,
          all,
          kept,
        )
    convert_type-Converts pkg (CtyType.set t) type_name types closed =
        let (c, all, kept) = convert_type-Converts pkg t type_name types closed in
        (
          not_own _ "array" "" (Nested.spec ((convert_type title pkg t type_name types).0))
              Nested.nil refl c tt,
          all,
          kept,
        )
    convert_type-Converts pkg (CtyType.map t) type_name types closed =
        let (c, all, kept) = convert_type-Converts pkg t type_name types closed in
        (
          not_own _ "object" "" Nested.nil
              (Nested.spec ((convert_type title pkg t type_name types).0)) refl tt c,
          all,
          kept,
        )
    convert_type-Converts pkg (CtyType.object attributes) type_name types closed =
        add_object-Converts (object_type_token title pkg type_name) types _
          (convert_attributes-Converts pkg attributes type_name [] types (none_closed types) closed)

    convert_attributes-Converts :
        (pkg : String) (attributes : Attributes) (type_name : String) (properties : Dict TypeSpec)
        (types : SupportingTypes)
        → AreClosed types properties
        → TypesClosed types
        → ConvertsAll types (convert_attributes title pkg attributes type_name properties types)
    convert_attributes-Converts pkg Attributes.end type_name properties types all closed =
        (all, closed, λ token has. has)
    convert_attributes-Converts pkg (Attributes.attribute name t rest) type_name properties types
          all closed =
        let step = convert_type title pkg t (type_name <> "_" <> name) types in
        let (c, closed', kept) =
          convert_type-Converts pkg t (type_name <> "_" <> name) types closed in
        let (all', closed'', kept') =
          convert_attributes-Converts pkg rest type_name (insert name (step.0) properties) (step.1)
            (AreClosed-insert (step.1) name (step.0) properties c
              λ other u has. IsClosed-Keeps types (step.1) u kept (all other u has))
            closed' in
        (all', closed'', λ token has. kept' token (kept token has))
