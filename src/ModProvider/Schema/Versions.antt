-- ===== src/ModProvider/Schema/Versions.antt =====
-- pkg/modprovider/tfmodules.go: the latest version of a module in the registry, and the overrides that are
-- built in. Versions are a parameter, `V`.
use pulumi_terraform_module.Prelude.{
  String, Bool, true, false, not, ◌&&◌, Option, none, some, List, [], ◌∷◌, if◌then◌else◌,
}
use pulumi_terraform_module.Prelude.Outcome.{Outcome, ok, err, panic, ◌>>=◌}
use pulumi_terraform_module.Prelude.Dict.{Dict}
use pulumi_terraform_module.ModProvider.Overrides.{ModuleSchemaOverride}
pub mod Laws

-- What `addrs.ParseModuleSource` makes of a source.
pub data ParsedSource : Type 0 where
  registry : String → ParsedSource
  remote other_source unparsable : ParsedSource

pub record Registry (V : Type 0) : Type 0 where
  -- `version.NewVersion`, `Prerelease() != ""` and `GreaterThan`
  pub new_version : String → Option V
  pub is_prerelease : V → Bool
  pub greater_than : V → V → Bool
  -- `&version.Version{}`
  pub no_version : V
  pub parse_source : String → ParsedSource
  -- `resp.Modules[0].Versions`
  pub module_versions : String → Outcome (List String)

module _ {V : Type 0} (env : Registry V) where
  -- The latest version after a round.
  abbrev pub later_of : V → Option V → Option V
  later_of v none = some v
  later_of v (some latest) = if env.greater_than v latest then some v else some latest

  abbrev pub next_latest : V → Option V → Option V
  next_latest v latest = if env.is_prerelease v then latest else later_of v latest

  -- The loop over the versions.
  unfoldable pub latest_loop : List String → Option V → Outcome (Option V)
  latest_loop [] latest = ok latest
  latest_loop (text ∷ rest) latest = elim (env.new_version text) [
    | none ↦ err "failed to parse version"
    | some v ↦ latest_loop rest (next_latest v latest)
  ]

  abbrev pub found_latest : Option V → Outcome V
  found_latest none = err "failed to find latest version"
  found_latest (some v) = ok v

  unfoldable pub latest_in : ParsedSource → Outcome V
  unfolding latest_loop
  latest_in (registry package_name) = env.module_versions package_name >>= λ versions.
      latest_loop versions none >>= λ latest. found_latest latest
  latest_in remote = ok env.no_version
  latest_in other_source = err "not from a remote registry"
  latest_in unparsable = err "failed to parse module source"

  -- `latestModuleVersion`
  unfoldable pub latest_module_version : String → Outcome V
  unfolding latest_in
  latest_module_version source = latest_in (env.parse_source source)

-- A file of the overrides that are built in: whether its name ends in `.json`, and what it holds once the
-- name of the package is put in.
pub record OverrideFile (S : Type 0) : Type 0 where
  pub is_json : Bool
  pub content : Outcome (ModuleSchemaOverride S)

abbrev pub minimum_valid : (String → Bool) → Option String → Bool
minimum_valid is_valid none = true
minimum_valid is_valid (some version) = is_valid version

module _ {S : Type 0} (is_valid_version : String → Bool) where
  -- The loop over the files, where a failure panics.
  unfoldable pub read_overrides : List (OverrideFile S) → Outcome (List (ModuleSchemaOverride S))
  read_overrides [] = ok []
  read_overrides (file ∷ files) = elim file.is_json [
    | false ↦ read_overrides files
    | true ↦ elim file.content [
      | ok override ↦ read_overrides files >>= λ rest. ok (override ∷ rest)
      | err e ↦ panic
      | panic ↦ panic
    ]
  ]

  unfoldable pub all_valid : List (ModuleSchemaOverride S) → Bool
  all_valid [] = true
  all_valid (o ∷ os) =
      minimum_valid is_valid_version o.minimum_version
      && (is_valid_version o.maximum_version && all_valid os)

  -- `parseModuleSchemaOverrides`
  unfoldable pub parse_module_schema_overrides :
      List (OverrideFile S) → Outcome (List (ModuleSchemaOverride S))
  unfolding read_overrides all_valid
  parse_module_schema_overrides files =
      read_overrides files >>= λ overrides. if all_valid overrides then ok overrides else panic
