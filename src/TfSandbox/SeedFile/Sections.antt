-- ===== src/TfSandbox/SeedFile/Sections.antt =====
-- The sections of the seed file, and what it declares for the module, its inputs, its providers and its
-- outputs.
use pulumi_terraform_module.Prelude.{String, ◌≡◌, refl, true, false, none, some, [], ◌∷◌, ◌==◌, ◌∙◌}
use pulumi_terraform_module.Prelude.Outcome.{ok}
use pulumi_terraform_module.Prelude.Dict.{Dict, insert, lookup, NodupKeys}
use pulumi_terraform_module.Pulumi.Json.{Json, Members}
use pulumi_terraform_module.Pulumi.Value.{PropertyValue, PropertyMap, find, NodupMap}
use pulumi_terraform_module.TfSandbox.Locals.{Sdk, Locals}
use pulumi_terraform_module.TfSandbox.Locals.Numbered.{IsDecimal, IsNumbered}
use pulumi_terraform_module.TfSandbox.Locals.Seeded.{Seeded, SeededFields, IsMapRepl}
use pulumi_terraform_module.TfSandbox.Locals.Kept.{fields_encodable, SeededFields-Extends}
use pulumi_terraform_module.TfSandbox.Locals.Returns.{
  decode_fields-Seeded, decode_fields-IsNumbered,
}
use pulumi_terraform_module.TfSandbox.SeedFile.{
  SeedArgs, Library, section, object_of, tf_file, assemble, module_props, absolute_source,
  resources, declare_outputs, providers_field,
}
use pulumi_terraform_module.TfSandbox.SeedFile.Laws.{
  lookup-insert_other, lookup-insert_same, lookup-section_other, lookup-section, unless_none,
  pass_inputs-find, seed_providers_lem, AreEncodable, IsUnique,
}

-- Nothing is counted yet.
start-IsNumbered : (sdk : Sdk) → IsNumbered sdk (record { entries = []; counter = 0 })
unfolding lookup
start-IsNumbered sdk = record { counted = refl; next_free = λ i above. refl }

module _ (lib : Library) (args : SeedArgs) (absolute : String) (inputs : Members)
    (providers : Dict Json) (l : Locals) where
  abbrev file_of : Dict Json
  file_of = assemble lib args absolute inputs providers l

  abbrev outputs_of : Dict Json
  outputs_of = section "output" (declare_outputs args.name args.outputs []) []

  abbrev resources_of : Dict Json
  resources_of = section "resource" (resources (lib.contains_unknowns args.inputs)) outputs_of

  abbrev providers_of : Dict Json
  providers_of = section "provider" providers resources_of

  abbrev module_of : Json
  module_of =
      object_of ((args.name, object_of (module_props lib absolute args inputs providers)) ∷ [])

  -- A key that none of the sections below has.
  below_module :
      (key : String)
      → ("output" == key) ≡ false
      → ("resource" == key) ≡ false
      → ("provider" == key) ≡ false
      → lookup key providers_of ≡ none
  unfolding lookup
  below_module key o r p =
      lookup-section_other "provider" key providers resources_of p
      ∙ lookup-section_other "resource" key (resources (lib.contains_unknowns args.inputs))
          outputs_of r
      ∙ lookup-section_other "output" key (declare_outputs args.name args.outputs []) [] o

  lookup-assemble_locals : lookup "locals" file_of ≡ unless_none l.entries
  unfolding assemble
  lookup-assemble_locals =
      lookup-section "locals" l.entries (insert "module" module_of providers_of) (
        lookup-insert_other "module" "locals" module_of providers_of refl
        ∙ below_module "locals" refl refl refl)

  lookup-assemble_module : lookup "module" file_of ≡ some module_of
  unfolding assemble
  lookup-assemble_module =
      lookup-section_other "locals" "module" l.entries (insert "module" module_of providers_of) refl
      ∙ lookup-insert_same "module" module_of providers_of

  above_module :
      (key : String)
      → ("locals" == key) ≡ false
      → ("module" == key) ≡ false
      → lookup key file_of ≡ lookup key providers_of
  unfolding assemble
  above_module key a m =
      lookup-section_other "locals" key l.entries (insert "module" module_of providers_of) a
      ∙ lookup-insert_other "module" key module_of providers_of m

  lookup-assemble_provider : lookup "provider" file_of ≡ unless_none providers
  unfolding lookup
  lookup-assemble_provider =
      above_module "provider" refl refl
      ∙ lookup-section "provider" providers resources_of (
          lookup-section_other "resource" "provider" (resources (lib.contains_unknowns args.inputs))
            outputs_of refl
          ∙ lookup-section_other "output" "provider" (declare_outputs args.name args.outputs []) []
              refl)

  lookup-assemble_output :
      lookup "output" file_of ≡ unless_none (declare_outputs args.name args.outputs [])
  unfolding lookup
  lookup-assemble_output =
      above_module "output" refl refl
      ∙ lookup-section_other "provider" "output" providers resources_of refl
      ∙ lookup-section_other "resource" "output" (resources (lib.contains_unknowns args.inputs))
          outputs_of refl
      ∙ lookup-section "output" (declare_outputs args.name args.outputs []) [] refl

-- What the seed file calls the module with.
record Calls (lib : Library) (args : SeedArgs) (file : Dict Json) : Type 0 where
  entries : Dict Json
  props : Dict Json
  providers : Dict Json
  locals_section : lookup "locals" file ≡ unless_none entries
  module_section : lookup "module" file ≡ some (object_of ((args.name, object_of props) ∷ []))
  provider_section : lookup "provider" file ≡ unless_none providers
  input_passed :
      (k : String) (v : PropertyValue)
      → find k args.inputs ≡ some v
      → IsUnique lib k args.inputs
      → ("providers" == lib.terraform_name k) ≡ false
      → (j : Json) × (lookup (lib.terraform_name k) props ≡ some j) × Seeded lib.sdk entries v j
  provider_configured :
      (name : String) (config : PropertyMap)
      → lookup name args.provider_config ≡ some config
      → (js : Members) × (lookup name providers ≡ some (Json.object js))
        × SeededFields lib.sdk entries config js

module _ (lib : Library) (distinct : IsDecimal lib.sdk) (law : IsMapRepl lib.sdk) where
  tf_file-Calls :
      (args : SeedArgs) (absolute : String)
      → absolute_source lib args.source ≡ ok absolute
      → NodupMap args.inputs
      → NodupKeys args.provider_config
      → fields_encodable args.inputs ≡ true
      → AreEncodable args.provider_config
      → (file : Dict Json) × (tf_file lib args ≡ ok file) × Calls lib args file
  unfolding tf_file module_props
  tf_file-Calls args absolute found nodup nodup_configs good good_configs =
      let (js, l, e, stands) =
        decode_fields-Seeded lib.sdk distinct law args.inputs _ good (start-IsNumbered lib.sdk) in
      let (numbered, kept) =
        decode_fields-IsNumbered lib.sdk distinct law args.inputs _ l js good
          (start-IsNumbered lib.sdk) e in
      let (providers, l', e', (each, others), kept') =
        seed_providers_lem lib distinct law args.provider_config [] l nodup_configs good_configs
          numbered in
      (
        assemble lib args absolute js providers l',
        rw (found, e, e') refl,
        record {
          entries = l'.entries;
          props = module_props lib absolute args js providers;
          providers = providers;
          locals_section = lookup-assemble_locals lib args absolute js providers l';
          module_section = lookup-assemble_module lib args absolute js providers l';
          provider_section = lookup-assemble_provider lib args absolute js providers l';
          input_passed = λ k v has only other.
              let (j, passed, stand) =
                pass_inputs-find lib l'.entries (SeededFields-Extends lib.sdk kept' stands) k v _
                  nodup has only in
              (
                j,
                lookup-section_other "providers" (lib.terraform_name k) (providers_field providers)
                      _ other
                    ∙ passed,
                stand,
              );
          provider_configured = each;
        },
      )

  -- `CreateTFFile` makes a file for inputs and configurations without assets, archives and references, if
  -- the path of a local source is found. The one module block of the file passes on every input, unless
  -- another input has the same name in Terraform or the name is `providers`; what it passes stands for
  -- the value, given the section of locals: a secret is there only as a reference, marked as sensitive.
  pub tf_file-input :
      (args : SeedArgs) (absolute : String)
      → absolute_source lib args.source ≡ ok absolute
      → NodupMap args.inputs
      → NodupKeys args.provider_config
      → fields_encodable args.inputs ≡ true
      → AreEncodable args.provider_config
      → (k : String) (v : PropertyValue) → find k args.inputs ≡ some v
      → IsUnique lib k args.inputs
      → ("providers" == lib.terraform_name k) ≡ false
      → (file : Dict Json) × (entries : Dict Json) × (props : Dict Json) × (j : Json) × (tf_file lib
            args
          ≡ ok file)
        × (lookup "locals" file ≡ unless_none entries)
        × (lookup "module" file ≡ some (object_of ((args.name, object_of props) ∷ [])))
        × (lookup (lib.terraform_name k) props ≡ some j)
        × Seeded lib.sdk entries v j
  tf_file-input args absolute found nodup nodup_configs good good_configs k v has only other =
      let (file, e, calls) =
        tf_file-Calls args absolute found nodup nodup_configs good good_configs in
      let (j, passed, stands) = calls.input_passed k v has only other in
      (
        file, calls.entries, calls.props, j, e, calls.locals_section, calls.module_section, passed,
        stands,
      )

  -- `CreateTFFile` makes a file for inputs and configurations without assets, archives and references, if
  -- the path of a local source is found. The file configures every provider of `providerConfig`, and each
  -- value of a configuration is written as the text that stands for it, given the section of locals.
  pub tf_file-provider_config :
      (args : SeedArgs) (absolute : String)
      → absolute_source lib args.source ≡ ok absolute
      → NodupMap args.inputs
      → NodupKeys args.provider_config
      → fields_encodable args.inputs ≡ true
      → AreEncodable args.provider_config
      → (name : String) (config : PropertyMap) → lookup name args.provider_config ≡ some config
      → (file : Dict Json) × (entries : Dict Json) × (providers : Dict Json) × (js : Members)
        × (tf_file lib args ≡ ok file)
        × (lookup "locals" file ≡ unless_none entries)
        × (lookup "provider" file ≡ unless_none providers)
        × (lookup name providers ≡ some (Json.object js))
        × SeededFields lib.sdk entries config js
  tf_file-provider_config args absolute found nodup nodup_configs good good_configs name config
        has =
      let (file, e, calls) =
        tf_file-Calls args absolute found nodup nodup_configs good good_configs in
      let (js, configured, stands) = calls.provider_configured name config has in
      (
        file, calls.entries, calls.providers, js, e, calls.locals_section, calls.provider_section,
        configured, stands,
      )
