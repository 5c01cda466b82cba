-- ===== src/Tests/Setup.antt =====
-- Parameters, configuration and installation at concrete values.
use pulumi_terraform_module.Prelude.{
  String, ◌≡◌, refl, true, false, ◌==◌, Option, none, some, [], ◌∷◌,
}
use pulumi_terraform_module.Prelude.Outcome.{ok, err}
use pulumi_terraform_module.Prelude.Dict.{Dict, lookup}
use pulumi_terraform_module.Pulumi.Json
use pulumi_terraform_module.Pulumi.Json.{Members}
use pulumi_terraform_module.Pulumi.Value
use pulumi_terraform_module.Pulumi.Value.{
  PropertyMap, string, secret, object, entry, find, NodupMap,
}
use pulumi_terraform_module.ModProvider.Parameters.{ParameterizeArgs, Surroundings}
use pulumi_terraform_module.ModProvider.Schema.Versions.{Registry, registry}
use pulumi_terraform_module.ModProvider.Config.{clean_providers_config}
use pulumi_terraform_module.ModProvider.Config.Laws.{lookup-clean_providers_config}
use pulumi_terraform_module.Prelude.{List, if◌then◌else◌, ℕ, ltb}
use pulumi_terraform_module.ModProvider.Overrides.{
  Entry, ModuleSchemaOverride, has_builtin_overrides,
}
use pulumi_terraform_module.ModProvider.Overrides.Laws.{first_for, has_builtin_overrides-first_for}
use pulumi_terraform_module.TofuResolver.Installer.{torn, Faults, install_tool}
use pulumi_terraform_module.TofuResolver.Installer.Laws.{
  is_installed, after_attempts, nothing, install_tool-ok, is_installed-after_attempts,
}

abbrev listing : Registry ℕ
listing = record {
  new_version = λ text. if text == "5.0.0" then some 5 else some 4;
  is_prerelease = λ v. false;
  greater_than = λ a b. ltb b a;
  no_version = 0;
  parse_source = λ source. registry source;
  module_versions = λ source. ok ("4.0.0" ∷ "5.0.0" ∷ []);
}

abbrev surroundings : Surroundings ℕ String
surroundings = record {
  dir_exists = λ path. path == "./vpc";
  is_valid_version = λ version. version == "5.0.0";
  referenced_version_in_url = λ source. none;
  registry = listing;
  version_string = λ v. if ltb 4 v then "5.0.0" else "4.0.0";
  unmarshal_config_file = λ file name. ok file;
  unmarshal_args = λ text. err "not JSON";
}

abbrev parameters : ParameterizeArgs String
parameters = record {
  module_source = "aws/vpc";
  module_version = "5.0.0";
  package_name = "net";
  config = none;
}

abbrev unmarshal_map : String → Option Members
unmarshal_map text = some (Json.member "region" (Json.string text) Json.end)

abbrev new_property_map : Members → PropertyMap
new_property_map m = entry "region" (string "west") Value.end

abbrev config : PropertyMap
config = entry "version" (string "1") (entry "aws" (secret (string "{..}")) Value.end)

config_nodup : NodupMap config
unfolding find
config_nodup = (refl, (refl, tt))

abbrev cleaned_config : Dict PropertyMap
cleaned_config = ("aws", entry "region" (string "west") Value.end) ∷ []

clean_run : clean_providers_config unmarshal_map new_property_map config ≡ ok cleaned_config
unfolding clean_providers_config
clean_run = refl

lookup-clean_providers_config_example :
    lookup "aws" cleaned_config ≡ some (entry "region" (string "west") Value.end)
unfolding find
lookup-clean_providers_config_example =
    lookup-clean_providers_config unmarshal_map new_property_map config "aws" config_nodup clean_run

abbrev faultless : Faults
faultless = record {
  download = false;
  lock = false;
  stat_dir = false;
  stat_partial = false;
  remove_dir = false;
  write_partial = false;
  make_dir = false;
  write_binary = false;
  remove_partial = false;
  remove_dir_leaves = torn;
  write_partial_leaves = false;
  make_dir_leaves = false;
  write_binary_leaves = torn;
}

-- The download is cut short while the binary is written.
abbrev crash : Faults
crash = record {
  download = false;
  lock = false;
  stat_dir = false;
  stat_partial = false;
  remove_dir = false;
  write_partial = false;
  make_dir = false;
  write_binary = true;
  remove_partial = false;
  remove_dir_leaves = torn;
  write_partial_leaves = false;
  make_dir_leaves = false;
  write_binary_leaves = torn;
}

install_tool-ok_example :
    (install_tool faultless false (after_attempts (crash ∷ []) nothing)).0 ≡ ok tt
install_tool-ok_example = install_tool-ok faultless false (after_attempts (crash ∷ []) nothing) refl

is_installed-after_attempts_example :
    is_installed ((install_tool faultless false (after_attempts (crash ∷ []) nothing)).1) ≡ true
unfolding install_tool
is_installed-after_attempts_example = is_installed-after_attempts (crash ∷ []) faultless refl

abbrev modules : List Entry
modules =
    record { key = ""; source = ""; dir = "." }
    ∷ record { key = "mymod"; source = "aws/vpc"; dir = ".terraform/modules/mymod" }
    ∷ []

abbrev old_names : List String
old_names = "vpc_id" ∷ []

abbrev new_names : List String
new_names = "arn" ∷ "vpc_id" ∷ []

-- Versions with one digit
abbrev new_version : String → Option ℕ
new_version text = if text == "1" then some 1 else if text == "2" then some 2 else none

abbrev override : ModuleSchemaOverride String
override = record {
  source = "aws/vpc";
  partial_schema = "outputs";
  minimum_version = some "1";
  maximum_version = "2";
}

has_builtin_overrides-first_for_example :
    has_builtin_overrides new_version ltb (λ a b. ltb b a) "aws/vpc" "2" (override ∷ [])
    ≡ ok (first_for new_version ltb (λ a b. ltb b a) "aws/vpc" (some 2) (override ∷ []))
has_builtin_overrides-first_for_example =
    has_builtin_overrides-first_for new_version ltb (λ a b. ltb b a) "aws/vpc" "2" (override ∷ [])
      refl
