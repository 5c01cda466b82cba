-- ===== src/Tests/Machines.antt =====
-- The registry's token, working directories and executors at concrete values.
use pulumi_terraform_module.Prelude.{
  String, ◌<>◌, ◌≡◌, ◌≤◌, ◌⊎◌, refl, true, false, none, some, List, [], ◌∷◌, ◌++◌, length, ◌==◌,
  if◌then◌else◌, starts_with,
}
use pulumi_terraform_module.Prelude.Text.{split_on}
use pulumi_terraform_module.Prelude.Outcome.{ok, err}
use pulumi_terraform_module.Prelude.Dict.{Dict, lookup, insert}
use pulumi_terraform_module.ModProvider.RegistryToken.{
  CloudRegistry, Discovery, Network, discover_cloud_registry, tf_token_env_key, replace_dashes,
  replace_dots, inject_registry_token, cloud_registry_credentials, credentials_for_registry,
}
use pulumi_terraform_module.ModProvider.RegistryToken.Hosts.{is_host}
use pulumi_terraform_module.ModProvider.RegistryToken.Laws.{
  token_after, lookup-inject_registry_token,
}
use pulumi_terraform_module.TfSandbox.Workdir.{
  Machine, Stat, Change, removed, made, safe_path_component, module_workdir,
  module_instance_workdir, with_executor, workdir_path, workdir_get_or_create, workdir_clean,
  clean_loop, get_or_create,
}
use pulumi_terraform_module.TfSandbox.Workdir.Bounds.{AreShort, AreShort-workdirs}
use pulumi_terraform_module.TfSandbox.Workdir.Cleaning.{workdir_get_or_create-ok}
use pulumi_terraform_module.TfSandbox.Runtime.{
  ModuleRuntime, Tools, pick_module_runtime, new_tofu, split_at_sign, env_map, split_first,
  plan_options, given, reattached,
}
use pulumi_terraform_module.TofuResolver.Installer.{
  torn, whole, Faults, install_tool, install_fresh, absent,
}
use pulumi_terraform_module.TofuResolver.Installer.Laws.{after_attempts, nothing}
use pulumi_terraform_module.TofuResolver.Resolver.{
  resolve, System, try_get_tofu_executable, get_tofu_in, find_or_install,
}

abbrev cloud : CloudRegistry
cloud = record { host = "api.my-org.io"; token = "secret" }

host_run : is_host "api.my-org.io" ≡ true
unfolding is_host
host_run = refl

tf_token_env_key_run : tf_token_env_key "api.my-org.io" ≡ "TF_TOKEN_api_my__org_io"
unfolding tf_token_env_key replace_dashes replace_dots
tf_token_env_key_run = refl

lookup-inject_registry_token_example :
    (env' : Dict String) × (inject_registry_token
        (ok (some cloud))
        (("TF_TOKEN_api_my__org_io", "") ∷ [])
      ≡ ok (false, env'))
    × (lookup (tf_token_env_key "api.my-org.io") env'
        ≡ token_after cloud "api.my-org.io"
            (lookup (tf_token_env_key "api.my-org.io") (("TF_TOKEN_api_my__org_io", "") ∷ [])))
lookup-inject_registry_token_example =
    lookup-inject_registry_token cloud "api.my-org.io" (("TF_TOKEN_api_my__org_io", "") ∷ [])
      host_run host_run

abbrev net : Network
net = record {
  parse_host = λ url. ok "api.pulumi.com";
  for_comparison = ok;
  discover_service_url = λ host. Discovery.service_at "api.my-org.io";
}

discover_run : discover_cloud_registry net "https://api.pulumi.com" "secret" ≡ ok (some cloud)
unfolding discover_cloud_registry
discover_run = refl

credentials_run : cloud_registry_credentials (err "no") ≡ none
unfolding cloud_registry_credentials credentials_for_registry
credentials_run = refl

abbrev join_all : List String → String
join_all [] = ""
join_all (part ∷ parts) = (if starts_with part "/" then part else "/" <> part) <> join_all parts

abbrev machine : Machine
machine = record {
  path_escape = λ s. s;
  sum_hex = λ s. "0123456789abcdef0123456789abcdef0123456789abcdef0123456789abcdef";
  base_name = λ s. "tofu";
  join = join_all;
  temp_dir = "tmp";
  stat = λ path. if path == "/usr/bin/tofu.sh" then Stat.file else Stat.directory;
  removable = λ path. true;
  creatable = λ path. true;
}

abbrev cleaned_path : String
cleaned_path = "/tmp/pulumi-terraform-module/workdirs/by-urn/u"

abbrev cleaned_changes : List Change
cleaned_changes =
    removed "/tmp/pulumi-terraform-module/workdirs/by-urn/u/pulumi.tf.json"
    ∷ removed "/tmp/pulumi-terraform-module/workdirs/by-urn/u/terraform.tfstate"
    ∷ removed "/tmp/pulumi-terraform-module/workdirs/by-urn/u/plan.out"
    ∷ []

workdir_get_or_create_run :
    workdir_get_or_create machine ("by-urn" ∷ "u" ∷ []) ≡ (cleaned_changes, ok cleaned_path)
unfolding workdir_get_or_create workdir_path get_or_create workdir_clean clean_loop
workdir_get_or_create_run = refl

workdir_get_or_create-ok_example :
    (join_all ("tmp" ∷ "pulumi-terraform-module" ∷ "workdirs" ∷ "by-urn" ∷ "u" ∷ []) ≡ cleaned_path)
    × (((machine.stat cleaned_path ≡ Stat.directory)
          × (cleaned_changes
              ≡ removed (join_all (cleaned_path ∷ "pulumi.tf.json" ∷ []))
                ∷ removed (join_all (cleaned_path ∷ "terraform.tfstate" ∷ []))
                ∷ removed (join_all (cleaned_path ∷ "plan.out" ∷ []))
                ∷ []))
        ⊎ ((machine.stat cleaned_path ≡ Stat.not_exist)
            × (cleaned_changes ≡ made cleaned_path ∷ [])))
workdir_get_or_create-ok_example =
    workdir_get_or_create-ok machine ("by-urn" ∷ "u" ∷ []) cleaned_path cleaned_changes
      workdir_get_or_create_run

AreShort-workdirs_example :
    AreShort machine (module_workdir machine "aws/vpc" "5.0.0")
    × ((prefix : List String) × (rest : List String) × (module_instance_workdir machine
            "/usr/bin/tofu.sh" "urn"
          ≡ prefix ++ rest)
        × (length prefix ≤ 1)
        × AreShort machine rest
        × (length rest ≡ 2))
AreShort-workdirs_example = AreShort-workdirs machine "aws/vpc" "5.0.0" "/usr/bin/tofu.sh" "urn"

instance_run :
    module_instance_workdir machine "/usr/bin/tofu.sh" "urn" ≡ "tofu" ∷ "by-urn" ∷ "urn" ∷ []
unfolding module_instance_workdir with_executor safe_path_component
instance_run = refl

-- A name of two dots stays one.
dots_run : safe_path_component machine ".." ≡ ".."
unfolding safe_path_component
dots_run = refl

abbrev no_faults : Faults
no_faults = record {
  download = false;
  lock = false;
  stat_dir = false;
  stat_partial = false;
  remove_dir = false;
  write_partial = false;
  make_dir = false;
  write_binary = false;
  remove_partial = false;
  remove_dir_leaves = absent;
  write_partial_leaves = false;
  make_dir_leaves = false;
  write_binary_leaves = absent;
}

abbrev system : System
system = record {
  pulumi_path = ok "/home";
  join = λ a b. a <> "/" <> b;
  dir = λ path. path;
  is_windows = false;
  find_tofu = λ dir files. err "not found";
}

abbrev tools : Tools
tools = record {
  machine = record {
    path_escape = λ s. s;
    sum_hex = λ s. s;
    base_name = λ s. s;
    join = join_all;
    temp_dir = "tmp";
    stat = λ path. Stat.not_exist;
    removable = λ path. true;
    creatable = λ path. true;
  };
  system = system;
  faults = no_faults;
  files = λ version. nothing;
  find_terraform = err "not found";
  can_execute = λ dir path. true;
  parse_version = ok;
  random_dir = "rand-1";
}

abbrev picked : ModuleRuntime String
picked = record {
  working_dir = "/tmp/pulumi-terraform-module/workdirs/d";
  executable = "/home/tofu-1.9.0/tofu";
  reattach = some "aux";
  description = "Tofu CLI 1.9.0";
}

pick_run : pick_module_runtime tools (some ("d" ∷ [])) (some "aux") "opentofu@1.9.0" ≡ ok picked
unfolding pick_module_runtime new_tofu split_at_sign split_on workdir_get_or_create workdir_path
    get_or_create resolve try_get_tofu_executable get_tofu_in find_or_install install_tool
    install_fresh
pick_run = refl

plan_options_run :
    plan_options {Given = String} picked ("-out" ∷ []) ≡ given "-out" ∷ reattached "aux" ∷ []
unfolding plan_options
plan_options_run = refl

env_map_run : env_map ("A=1=2" ∷ "B" ∷ []) [] ≡ ("A", "1=2") ∷ ("B", "") ∷ []
unfolding env_map split_first insert
env_map_run = refl

-- A search that takes any file takes the one that an installation left unfinished.
torn_run :
    resolve
      (record {
        pulumi_path = ok "/home";
        join = λ a b. a <> "/" <> b;
        dir = λ path. path;
        is_windows = false;
        find_tofu = λ dir files. elim files.binary [
          | absent ↦ err "not found"
          | torn ↦ ok dir
          | whole ↦ ok dir
        ];
      })
      no_faults
      (some "1.9.0")
      (record { dir = true; binary = torn; partial = true })
    ≡ (ok "/home/tofu-1.9.0/tofu", record { dir = true; binary = torn; partial = true })
unfolding resolve try_get_tofu_executable get_tofu_in find_or_install
torn_run = refl

try_get_tofu_executable_run :
    (try_get_tofu_executable system no_faults (some "1.9.0") (after_attempts [] nothing)).0
    ≡ ok ("/home/tofu-1.9.0/tofu", false)
unfolding try_get_tofu_executable get_tofu_in find_or_install install_tool install_fresh
try_get_tofu_executable_run = refl
