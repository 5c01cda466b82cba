-- ===== src/ModProvider/Parameters/Laws.antt =====
-- Which parameters come out of the arguments.
use pulumi_terraform_module.Prelude.{
  String, ◌≡◌, ◌⊎◌, refl, Bool, true, false, some, List, [], ◌∷◌, ◌++◌, if◌then◌else◌,
}
use pulumi_terraform_module.ModProvider.Parameters.{
  Surroundings, is_config_flag, extract_config_param,
}
use pulumi_terraform_module.ModProvider.Schema.Versions.{registry, remote}
use pulumi_terraform_module.ModProvider.Schema.Versions.Laws.{IsLatest}

abbrev pub has_flag : List String → Bool
has_flag [] = false
has_flag (arg ∷ args) = if is_config_flag arg then true else has_flag args

no_flag : (b c : Bool) → (if b then true else c) ≡ false → (b ≡ false) × (c ≡ false)
no_flag true c h = cc
no_flag false c h = (refl, h)

-- `--config <file>` after arguments without the flag gives these and the file, whatever follows.
pub extract_config_param-append :
    (args : List String) (flag file : String) (rest : List String)
    → has_flag args ≡ false
    → is_config_flag flag ≡ true
    → extract_config_param (args ++ (flag ∷ file ∷ rest)) ≡ (args, some file)
unfolding extract_config_param
extract_config_param-append [] flag file rest h f = rw f refl
extract_config_param-append (arg ∷ []) flag file rest h f =
    rw ((no_flag (is_config_flag arg) _ h).0, f) refl
extract_config_param-append (arg ∷ next ∷ args) flag file rest h f =
    let (plain, later) = no_flag (is_config_flag arg) _ h in
    rw (plain, extract_config_param-append (next ∷ args) flag file rest later f) refl

module _ {V C : Type 0} (env : Surroundings V C) where
  -- Where the version of a remote module comes from that is given without one.
  abbrev pub IsVersionOf : String → String → Type 0
  IsVersionOf source version =
      ((env.referenced_version_in_url source ≡ some version)
        × (env.is_valid_version version ≡ true))
      ⊎ (((name : String) × (v : V) × (env.registry.parse_source source ≡ registry name)
            × IsLatest env.registry name v
            × (version ≡ env.version_string v))
          ⊎ ((env.registry.parse_source source ≡ remote)
              × (version ≡ env.version_string env.registry.no_version)))
