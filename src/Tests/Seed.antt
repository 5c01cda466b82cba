-- ===== src/Tests/Seed.antt =====
-- The seed file at concrete values, with a `MapRepl` that is written out.
use pulumi_terraform_module.Prelude.{◌<>◌, ◌≡◌, refl, true, none, some, [], ◌∷◌}
use pulumi_terraform_module.Prelude.Outcome.{ok}
use pulumi_terraform_module.Prelude.Dict.{Dict, lookup, insert, NodupKeys}
use pulumi_terraform_module.Pulumi.Json.{Json, Members}
use pulumi_terraform_module.Pulumi.Value.{
  PropertyValue, PropertyMap, secret, computed, object, string, find, entry, NodupMap,
}
use pulumi_terraform_module.TfSandbox.Locals.{Locals, decode, decode_fields, create_local, layers}
use pulumi_terraform_module.TfSandbox.Locals.Numbered.{IsNumbered, Extends}
use pulumi_terraform_module.TfSandbox.Locals.Seeded.{Seeded, SeededFields}
use pulumi_terraform_module.TfSandbox.Locals.Kept.{fields_encodable}
use pulumi_terraform_module.TfSandbox.Locals.Returns.{decode_fields-IsNumbered}
use pulumi_terraform_module.TfSandbox.Source.{referenced_version_in_url}
use pulumi_terraform_module.TfSandbox.SeedFile.{
  declare_outputs, Library, SeedArgs, absolute_source, tf_file, object_of, with_version, Files,
  write_seed, and_copy, write_copy,
}
use pulumi_terraform_module.TfSandbox.SeedFile.Laws.{unless_none, AreEncodable}
use pulumi_terraform_module.TfSandbox.SeedFile.Sections.{tf_file-input, tf_file-provider_config}
use pulumi_terraform_module.TfSandbox.SeedFile.Declared.{lookup-declare_outputs}
use pulumi_terraform_module.Tests.MapRepl.{sdk, repl, sdk-IsMapRepl, sdk-IsDecimal}

abbrev start : Locals
start = record { entries = []; counter = 0 }

start-IsNumbered : IsNumbered sdk start
unfolding lookup
start-IsNumbered = record { counted = refl; next_free = λ i above. refl }

-- The example of the comment on `decode`, beside a value that is not known.
abbrev inputs : PropertyMap
inputs =
    entry "property" (secret (object (entry "nestedKey" (secret (string "value")) PropertyMap.end)))
      (entry "size" (computed PropertyValue.null) PropertyMap.end)

abbrev inputs_json : Members
inputs_json =
    Members.member "property" (Json.string "${sensitive(local.localII)}")
      (Members.member "size" (Json.string "${pulumiaux_unk.unknown_proxy.value}") Members.end)

abbrev locals_json : Locals
locals_json = record {
  entries =
      ("localI", Json.string "value")
      ∷ (
        "localII",
        Json.object
            (Members.member "nestedKey" (Json.string "${sensitive(local.localI)}") Members.end),
      )
      ∷ [];
  counter = 2;
}

decode_fields_run : decode_fields sdk inputs start ≡ ok (inputs_json, locals_json)
unfolding decode_fields decode layers sdk repl create_local insert
decode_fields_run = refl

decode_fields-IsNumbered_example : IsNumbered sdk locals_json × Extends start locals_json
unfolding fields_encodable
decode_fields-IsNumbered_example =
    decode_fields-IsNumbered sdk sdk-IsDecimal sdk-IsMapRepl inputs start locals_json inputs_json
      refl start-IsNumbered decode_fields_run

abbrev lib : Library
lib = record {
  sdk = sdk;
  abs = λ path. ok ("/work/" <> path);
  query_ref = λ source. none;
  contains_unknowns = λ m. true;
  terraform_name = λ k. k;
}

abbrev args : SeedArgs
args = record {
  name = "net";
  source = "aws/vpc";
  version = "5.0.0";
  inputs = inputs;
  outputs = "id" ∷ "arn" ∷ [];
  provider_config = ("aws", entry "region" (secret (string "eu")) PropertyMap.end) ∷ [];
}

source_run : absolute_source lib "aws/vpc" ≡ ok "aws/vpc"
unfolding absolute_source
source_run = refl

inputs_nodup : NodupMap inputs
unfolding find
inputs_nodup = (refl, (refl, tt))

configs_nodup : NodupKeys args.provider_config
unfolding lookup
configs_nodup = (refl, tt)

configs_good : AreEncodable args.provider_config
unfolding AreEncodable fields_encodable
configs_good = (refl, tt)

inputs_good : fields_encodable inputs ≡ true
unfolding fields_encodable
inputs_good = refl

property_has :
    find "property" inputs
    ≡ some (secret (object (entry "nestedKey" (secret (string "value")) PropertyMap.end)))
unfolding find
property_has = refl

tf_file-input_example :
    (file : Dict Json) × (entries : Dict Json) × (props : Dict Json) × (j : Json) × (tf_file lib
        args
      ≡ ok file)
    × (lookup "locals" file ≡ unless_none entries)
    × (lookup "module" file ≡ some (object_of (("net", object_of props) ∷ [])))
    × (lookup "property" props ≡ some j)
    × Seeded sdk entries
        (secret (object (entry "nestedKey" (secret (string "value")) PropertyMap.end)))
        j
tf_file-input_example =
    tf_file-input lib sdk-IsDecimal sdk-IsMapRepl args "aws/vpc" source_run inputs_nodup
      configs_nodup inputs_good configs_good "property" _ property_has (λ j has same. same) refl

tf_file-provider_config_example :
    (file : Dict Json) × (entries : Dict Json) × (providers : Dict Json) × (js : Members) × (tf_file
        lib args
      ≡ ok file)
    × (lookup "locals" file ≡ unless_none entries)
    × (lookup "provider" file ≡ unless_none providers)
    × (lookup "aws" providers ≡ some (Json.object js))
    × SeededFields sdk entries (entry "region" (secret (string "eu")) PropertyMap.end) js
unfolding lookup
tf_file-provider_config_example =
    tf_file-provider_config lib sdk-IsDecimal sdk-IsMapRepl args "aws/vpc" source_run inputs_nodup
      configs_nodup inputs_good configs_good "aws" _ refl

lookup-declare_outputs_example :
    (lookup "arn" (declare_outputs "net" ("id" ∷ "arn" ∷ []) [])
      ≡ some (
          object_of (
            ("value", Json.string "${jsondecode(nonsensitive(jsonencode(module.net.arn)))}") ∷ [])))
    × (lookup "internal_output_is_secret_arn" (declare_outputs "net" ("id" ∷ "arn" ∷ []) [])
        ≡ some (
            object_of (
              ("value", Json.string "${jsondecode(issensitive(jsonencode(module.net.arn)))}")
              ∷ [])))
lookup-declare_outputs_example =
    lookup-declare_outputs "net" ("id" ∷ "arn" ∷ []) "arn" [] (refl, (refl, tt)) refl

-- A local source becomes a path, and a version in the URL keeps the version out.
with_version_run :
    with_version lib "git::https://x/y?ref=v1" "2.0.0" [] ≡ ("version", Json.string "2.0.0") ∷ []
unfolding with_version referenced_version_in_url insert
with_version_run = refl

referenced_version_run : referenced_version_in_url (some "v1.2.0") ≡ some "1.2.0"
unfolding referenced_version_in_url
referenced_version_run = refl

abbrev files : Files
files = record {
  marshal_indent = λ j. ok "text";
  writable = λ path. true;
  is_missing = λ path. true;
  creatable = λ path. true;
  join = λ dir name. dir <> "/" <> name;
  write_dir = "/debug";
}

write_seed_run :
    write_seed files "net" "/dir" (ok "text")
    ≡ (("/dir/pulumi.tf.json", "text") ∷ ("/debug/net.tf.json", "text") ∷ [], ok tt)
unfolding write_seed and_copy write_copy
write_seed_run = refl
