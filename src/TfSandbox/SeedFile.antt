-- ===== src/TfSandbox/SeedFile.antt =====
-- pkg/tfsandbox/tf_file.go: the file that calls the module.
use pulumi_terraform_module.Prelude.{
  ℕ, String, ◌<>◌, Bool, true, false, Option, none, some, List, [], ◌∷◌, ◌++◌, ◌==◌, if◌then◌else◌,
  not, ◌&&◌, is_some,
}
use pulumi_terraform_module.Prelude.Outcome.{Outcome, ok, err, panic, ◌>>=◌}
use pulumi_terraform_module.Prelude.Dict.{Dict, insert}
use pulumi_terraform_module.Pulumi.Json
use pulumi_terraform_module.Pulumi.Json.{Json, Members}
use pulumi_terraform_module.Pulumi.Value
use pulumi_terraform_module.Pulumi.Value.{PropertyMap}
use pulumi_terraform_module.TfSandbox.Locals.{Sdk, Locals, decode_fields}
use pulumi_terraform_module.TfSandbox.Outputs.{is_secret_key}
use pulumi_terraform_module.TfSandbox.Source.{is_local_path, referenced_version_in_url}
pub mod Laws
pub mod Sections
pub mod Declared

-- The arguments of `CreateTFFile`
pub record SeedArgs : Type 0 where
  pub name : String
  pub source : String
  pub version : String
  pub inputs : PropertyMap
  pub outputs : List String
  pub provider_config : Dict PropertyMap

pub record Library : Type 0 where
  pub sdk : Sdk
  -- `filepath.Abs`, and the parameter `ref` of a source that is a URL
  pub abs : String → Outcome String
  pub query_ref : String → Option String
  -- `inputs.ContainsUnknowns()`
  pub contains_unknowns : PropertyMap → Bool
  -- `tfbridge.PulumiToTerraformName(k, nil, nil)`
  pub terraform_name : String → String

-- A Go map as the JSON object that it is written as.
abbrev pub members_of : Dict Json → Members
members_of [] = Members.end
members_of ((k, v) ∷ m) = Members.member k v (members_of m)

abbrev pub object_of : Dict Json → Json
object_of m = Json.object (members_of m)

-- `if len(m) > 0 { tfFile[key] = m }`
abbrev pub section : String → Dict Json → Dict Json → Dict Json
section key [] file = file
section key (first ∷ m) file = insert key (object_of (first ∷ m)) file

abbrev pub value_of_module : String → String → Dict Json
value_of_module name output =
    (
      "value",
      Json.string
          ("${jsondecode(nonsensitive(jsonencode(module." <> name <> "." <> output <> ")))}"),
    )
    ∷ []

abbrev pub flag_of_module : String → String → Dict Json
flag_of_module name output =
    (
      "value",
      Json.string
          ("${jsondecode(issensitive(jsonencode(module." <> name <> "." <> output <> ")))}"),
    )
    ∷ []

-- The loop over the outputs: each comes with an output that tells whether it is secret.
unfoldable pub declare_outputs : String → List String → Dict Json → Dict Json
declare_outputs name [] file = file
declare_outputs name (output ∷ rest) file = declare_outputs name rest (
    insert (is_secret_key output) (object_of (flag_of_module name output))
      (insert output (object_of (value_of_module name output)) file))

-- `providersField`
abbrev pub providers_field : Dict Json → Dict Json
providers_field [] = []
providers_field ((name, config) ∷ rest) = (name, Json.string name) ∷ providers_field rest

abbrev pub resources : Bool → Dict Json
resources true = ("pulumiaux_unk", object_of (("unknown_proxy", object_of []) ∷ [])) ∷ []
resources false = []

module _ (lib : Library) where
  -- `absoluteSource`
  unfoldable pub absolute_source : String → Outcome String
  unfolding is_local_path
  absolute_source source = if is_local_path source then lib.abs source else ok source

  -- `if version != "" && !hasRef { moduleProps["version"] = version }`
  unfoldable pub with_version : String → String → Dict Json → Dict Json
  unfolding referenced_version_in_url
  with_version source version props =
      if not (version == "") && not (is_some (referenced_version_in_url (lib.query_ref source)))
      then insert "version" (Json.string version) props
      else props

  -- The loop over the configurations of providers.
  unfoldable pub seed_providers :
      Dict PropertyMap → Dict Json → Locals → Outcome (Dict Json × Locals)
  unfolding decode_fields
  seed_providers [] providers l = ok (providers, l)
  seed_providers ((name, config) ∷ rest) providers l = decode_fields lib.sdk config l >>= λ r.
      seed_providers rest (insert name (Json.object (r.0)) providers) (r.1)

  -- The loop over the inputs.
  unfoldable pub pass_inputs : Members → Dict Json → Dict Json
  pass_inputs Members.end props = props
  pass_inputs (Members.member k v rest) props =
      pass_inputs rest (insert (lib.terraform_name k) v props)

  -- `if len(providers) > 0 { moduleProps["providers"] = providersField }`
  unfoldable pub module_props : String → SeedArgs → Members → Dict Json → Dict Json
  unfolding pass_inputs with_version
  module_props absolute args inputs providers = section "providers" (providers_field providers) (
      pass_inputs inputs
        (with_version args.source args.version (("source", Json.string absolute) ∷ [])))

  -- `tfFile`
  unfoldable pub assemble : SeedArgs → String → Members → Dict Json → Locals → Dict Json
  unfolding module_props declare_outputs
  assemble args absolute inputs providers l = section "locals" l.entries (
      insert "module"
        (object_of ((args.name, object_of (module_props absolute args inputs providers)) ∷ []))
        (section "provider" providers (
          section "resource" (resources (lib.contains_unknowns args.inputs))
            (section "output" (declare_outputs args.name args.outputs []) []))))

  unfoldable pub tf_file : SeedArgs → Outcome (Dict Json)
  unfolding absolute_source decode_fields seed_providers assemble
  tf_file args = absolute_source args.source >>= λ absolute.
      decode_fields lib.sdk args.inputs (record { entries = []; counter = 0 }) >>= λ inputs.
      seed_providers args.provider_config [] (inputs.1) >>= λ providers.
      ok (assemble args absolute (inputs.0) (providers.0) (providers.1))

-- The files that `CreateTFFile` writes
pub record Files : Type 0 where
  pub marshal_indent : Json → Outcome String
  -- whether `os.WriteFile` succeeds, `os.IsNotExist` of `os.Stat`, and whether `os.MkdirAll` succeeds
  pub writable : String → Bool
  pub is_missing : String → Bool
  pub creatable : String → Bool
  -- `path.Join` of two parts
  pub join : String → String → String
  -- PULUMI_TERRAFORM_MODULE_WRITE_TF_FILE
  pub write_dir : String

module _ (files : Files) where
  -- `os.WriteFile`: what it adds to the files written before
  abbrev pub write_file :
      String → String → List (String × String) → List (String × String) × Outcome (Unit {0})
  write_file path contents written =
      if files.writable path
      then (written ++ ((path, contents) ∷ []), ok tt)
      else (written, err "open")

  -- The copy for debugging.
  unfoldable pub write_copy :
      String → String → List (String × String) → List (String × String) × Outcome (Unit {0})
  write_copy name contents written =
      if files.write_dir == ""
      then (written, ok tt)
      else (if files.is_missing files.write_dir && not (files.creatable files.write_dir)
          then (written, err "mkdir")
          else write_file (files.join files.write_dir (name <> ".tf.json")) contents written)

  unfoldable pub and_copy :
      String
      → String
      → List (String × String) × Outcome (Unit {0})
      → List (String × String) × Outcome (Unit {0})
  unfolding write_copy
  and_copy name contents (written, ok u) = write_copy name contents written
  and_copy name contents (written, failed) = (written, failed)

  unfoldable pub write_seed :
      String → String → Outcome String → List (String × String) × Outcome (Unit {0})
  unfolding and_copy
  write_seed name dir (ok contents) =
      and_copy name contents (write_file (files.join dir "pulumi.tf.json") contents [])
  write_seed name dir (err e) = ([], err e)
  write_seed name dir panic = ([], panic)

  -- `CreateTFFile`: the files written, and the result
  unfoldable pub create_tf_file :
      Library → String → SeedArgs → List (String × String) × Outcome (Unit {0})
  unfolding tf_file write_seed
  create_tf_file lib dir args =
      write_seed args.name dir (tf_file lib args >>= λ file. files.marshal_indent (object_of file))
