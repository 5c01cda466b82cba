-- ===== src/TfSandbox/Locals/Kept.antt =====
-- The values that `decode` takes, and that a text keeps its meaning when locals are added.
use pulumi_terraform_module.Prelude.{◌≡◌, refl, Bool, true, false, ◌&&◌}
use pulumi_terraform_module.Prelude.Dict.{Dict}
use pulumi_terraform_module.Pulumi.Json.{Json, Items, Members}
use pulumi_terraform_module.Pulumi.Value.{
  PropertyValue, PropertyMap, Values, Output, make_output, asset, archive, resource_reference,
  secret, output,
}
use pulumi_terraform_module.TfSandbox.Locals.{Sdk}
use pulumi_terraform_module.TfSandbox.Locals.Numbered.{Keeps}
use pulumi_terraform_module.TfSandbox.Locals.Seeded.{Seeded, SeededItems, SeededFields}

-- No asset, archive or reference, which modules do not take.
unfoldable mutual
  pub is_encodable : PropertyValue → Bool
  is_encodable (asset a) = false
  is_encodable (archive a) = false
  is_encodable (resource_reference r) = false
  is_encodable (PropertyValue.array xs) = are_encodable xs
  is_encodable (PropertyValue.object m) = fields_encodable m
  is_encodable (secret v) = is_encodable v
  is_encodable (output o) = output_encodable o
  is_encodable _ = true

  are_encodable : Values → Bool
  are_encodable Values.nil = true
  are_encodable (Values.cons x xs) = is_encodable x && are_encodable xs

  pub fields_encodable : PropertyMap → Bool
  fields_encodable PropertyMap.end = true
  fields_encodable (PropertyMap.entry k v m) = is_encodable v && fields_encodable m

  output_encodable : Output → Bool
  output_encodable (make_output v known hides deps) = is_encodable v

pub both_true : (b c : Bool) → (b && c) ≡ true → (b ≡ true) × (c ≡ true)
both_true true c h = (refl, h)
both_true false c h = cc

module _ (sdk : Sdk) where
  mutual
    pub Seeded-Extends :
        {e e' : Dict Json} {v : PropertyValue} {j : Json}
        → Keeps e e'
        → Seeded sdk e v j
        → Seeded sdk e' v j
    Seeded-Extends kept Seeded.null = Seeded.null
    Seeded-Extends kept Seeded.bool = Seeded.bool
    Seeded-Extends kept Seeded.number = Seeded.number
    Seeded-Extends kept Seeded.string = Seeded.string
    Seeded-Extends kept (Seeded.array h) = Seeded.array (SeededItems-Extends kept h)
    Seeded-Extends kept (Seeded.object h) = Seeded.object (SeededFields-Extends kept h)
    Seeded-Extends kept Seeded.unknown = Seeded.unknown
    Seeded-Extends kept Seeded.unknown_output = Seeded.unknown_output
    Seeded-Extends kept (Seeded.hidden key has h) =
        Seeded.hidden key (kept _ _ has) (Seeded-Extends kept h)
    Seeded-Extends kept (Seeded.hidden_output key has h) =
        Seeded.hidden_output key (kept _ _ has) (Seeded-Extends kept h)
    Seeded-Extends kept (Seeded.known_output h) = Seeded.known_output (Seeded-Extends kept h)

    SeededItems-Extends :
        {e e' : Dict Json} {xs : Values} {js : Items}
        → Keeps e e'
        → SeededItems sdk e xs js
        → SeededItems sdk e' xs js
    SeededItems-Extends kept SeededItems.nil = SeededItems.nil
    SeededItems-Extends kept (SeededItems.cons h hs) =
        SeededItems.cons (Seeded-Extends kept h) (SeededItems-Extends kept hs)

    pub SeededFields-Extends :
        {e e' : Dict Json} {m : PropertyMap} {js : Members}
        → Keeps e e'
        → SeededFields sdk e m js
        → SeededFields sdk e' m js
    SeededFields-Extends kept SeededFields.end = SeededFields.end
    SeededFields-Extends kept (SeededFields.entry h hs) =
        SeededFields.entry (Seeded-Extends kept h) (SeededFields-Extends kept hs)
