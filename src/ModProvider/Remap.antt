-- ===== src/ModProvider/Remap.antt =====
-- pkg/modprovider/module.go: the loops that rename inputs, providers and outputs between the names of
-- Terraform and those of Pulumi. A loop goes over a map that it changes: a key is visited if it is still
-- there when its turn comes, so a loop takes the keys in the order of the visit, added ones among them.
use pulumi_terraform_module.Prelude.{
  String, Bool, Option, none, some, List, [], ◌∷◌, ◌==◌, if◌then◌else◌,
}
use pulumi_terraform_module.Prelude.Dict
use pulumi_terraform_module.Prelude.Dict.{Dict, lookup}
use pulumi_terraform_module.Pulumi.Value
use pulumi_terraform_module.Pulumi.Value.{PropertyValue, PropertyMap, find}
pub mod Laws

-- The body of the loop over the inputs, for a key that is still there.
abbrev pub rename_input : Option String → String → PropertyValue → PropertyMap → PropertyMap
rename_input none k v m = m
rename_input (some t) k v m = Value.erase k (Value.insert t v m)

-- The turn of a key, which finds it or not.
abbrev pub rename_turn : Dict String → String → Option PropertyValue → PropertyMap → PropertyMap
rename_turn mappings k none m = m
rename_turn mappings k (some v) m = rename_input (lookup k mappings) k v m

-- The renaming of the inputs in `prepSandbox`.
unfoldable pub rename_inputs : Dict String → List String → PropertyMap → PropertyMap
unfolding find lookup Value.insert Value.erase
rename_inputs mappings [] m = m
rename_inputs mappings (k ∷ ks) m = rename_inputs mappings ks (rename_turn mappings k (find k m) m)

unfoldable pub rename_provider :
    Option String → String → PropertyMap → Dict PropertyMap → Dict PropertyMap
unfolding Dict.insert Dict.erase
rename_provider none k c configs = configs
rename_provider (some t) k c configs = Dict.erase k (Dict.insert t c configs)

-- The renaming of the providers in `prepSandbox`.
unfoldable pub rename_providers : Dict String → List String → Dict PropertyMap → Dict PropertyMap
unfolding lookup rename_provider
rename_providers mappings [] configs = configs
rename_providers mappings (k ∷ ks) configs = rename_providers mappings ks (elim (lookup k configs) [
  | none ↦ configs
  | some c ↦ rename_provider (lookup k mappings) k c configs
])

-- The inner loop over the mappings, for an output that is still there.
unfoldable pub rename_output : String → PropertyValue → Dict String → PropertyMap → PropertyMap
unfolding Value.insert Value.erase
rename_output k v [] m = m
rename_output k v ((pulumi_name, tf_name) ∷ mappings) m =
    rename_output k v mappings
      (if k == tf_name then Value.erase k (Value.insert pulumi_name v m) else m)

-- The renaming of the outputs in `applyModuleOperation`.
unfoldable pub rename_outputs : Dict String → List String → PropertyMap → PropertyMap
unfolding find rename_output
rename_outputs mappings [] m = m
rename_outputs mappings (k ∷ ks) m =
    rename_outputs mappings ks
      (elim (find k m) [ none ↦ m | some v ↦ rename_output k v mappings m ])
