-- ===== src/ModProvider/Config/Laws.antt =====
-- Which providers are configured, and how.
use pulumi_terraform_module.Prelude.{
  Bool, ◌||◌, String, ◌≡◌, refl, sym, ap, ◌∙◌, Option, none, some, List, [], ◌∷◌, ◌==◌, eq_iff,
  arith, or_else, or_else-none, Bool-cases, Option-cases, inl, inr, if◌then◌else◌,
}
use pulumi_terraform_module.Prelude.Outcome.{ok, >>=-eq-ok, ok-injective}
use pulumi_terraform_module.Prelude.Dict.{Dict, lookup, lookup-insert}
use pulumi_terraform_module.Pulumi.Json.{Members, member}
use pulumi_terraform_module.Pulumi.Value.{
  PropertyValue, string, object, secret, PropertyMap, entry, find, NodupMap,
}
use pulumi_terraform_module.TfSandbox.Keys.{contains}
use pulumi_terraform_module.ModProvider.Config.{
  is_skipped, without_secret, decoded, provider_config, add, clean_loop, clean_providers_config,
  azure_features, fixup_providers_config,
}

-- The keys that do not name a provider.
abbrev pub is_reserved : String → Bool
is_reserved k = k == "version" || k == "pluginDownloadURL" || k == "executor"

is_skipped_lem : (k : String) → is_skipped k ≡ is_reserved k
is_skipped_lem k = refl

module _ (unmarshal_map : String → Option Members) (new_property_map : Members → PropertyMap) where
  -- What a text configures, that holds the JSON of an object: nothing, if that is empty.
  abbrev pub read_object : Option Members → Option PropertyMap
  read_object (some (member k v more)) = some (new_property_map (member k v more))
  read_object _ = none

  abbrev pub configured : PropertyValue → Option PropertyMap
  configured (string text) = read_object (unmarshal_map text)
  configured (object m) = some m
  configured (secret (string text)) = read_object (unmarshal_map text)
  configured (secret (object m)) = some m
  configured _ = none

  abbrev pub cleaned : String → Option PropertyValue → Option PropertyMap
  cleaned k none = none
  cleaned k (some v) = if is_reserved k then none else configured v

  read_object-decoded :
      (decoding : Option Members) {found : Option PropertyMap}
      → decoded unmarshal_map new_property_map decoding ≡ ok found
      → found ≡ read_object decoding
  read_object-decoded none h = cc
  read_object-decoded (some Members.end) h = sym (ok-injective _ _ h)
  read_object-decoded (some (member k v more)) h = sym (ok-injective _ _ h)

  configured-eq-ok :
      (v : PropertyValue) {found : Option PropertyMap}
      → provider_config unmarshal_map new_property_map (without_secret v) ≡ ok found
      → found ≡ configured v
  configured-eq-ok (string text) h = read_object-decoded (unmarshal_map text) h
  configured-eq-ok (object m) h = sym (ok-injective _ _ h)
  configured-eq-ok (secret (string text)) h = read_object-decoded (unmarshal_map text) h
  configured-eq-ok (secret (object m)) h = sym (ok-injective _ _ h)
  configured-eq-ok (secret _) h = cc
  configured-eq-ok _ h = cc

  lookup-add :
      (j k : String) (found : Option PropertyMap) (configs : Dict PropertyMap)
      → lookup k (add unmarshal_map new_property_map j found configs)
        ≡ (if j == k then or_else found (lookup k configs) else lookup k configs)
  lookup-add j k none configs = ground arith
  lookup-add j k (some m) configs = lookup-insert j k m configs ∙ ground arith

  lookup-clean_loop :
      (config : PropertyMap) (configs : Dict PropertyMap) (k : String) {out : Dict PropertyMap}
      → NodupMap config
      → clean_loop unmarshal_map new_property_map config configs ≡ ok out
      → lookup k out ≡ or_else (cleaned k (find k config)) (lookup k configs)
  unfolding clean_loop find
  lookup-clean_loop PropertyMap.end configs k {out} u h =
      ap (lookup k) (sym (ok-injective configs out h))
  lookup-clean_loop (entry j v rest) configs k {out} u h = elim (Bool-cases (is_skipped j)) [
    | inl skipped ↦
        let ih = lookup-clean_loop rest configs k u.1 (rw (skipped, clean_loop) at h) in
        elim (Bool-cases (j == k)) [
          | inl here ↦
              let same = (eq_iff j k).0 here in
              rw here (ih ∙ rw (rw same at (u.0), ← is_skipped_lem k, rw same at skipped) refl)
          | inr there ↦ rw there ih
        ]
    | inr kept ↦
        let (found, made, h') =
          >>=-eq-ok (provider_config unmarshal_map new_property_map (without_secret v)) _
            (rw (kept, clean_loop) at h) in
        let ih =
          lookup-clean_loop rest _ k u.1 h'
          ∙ ap (or_else (cleaned k (find k rest))) (lookup-add j k found configs) in
        elim (Bool-cases (j == k)) [
          | inl here ↦
              let same = (eq_iff j k).0 here in
              rw here (
                ih
                ∙ rw
                    (
                      here,
                      rw same at (u.0),
                      ← is_skipped_lem k,
                      rw same at kept,
                      configured-eq-ok v made,
                    )
                    refl)
          | inr there ↦ rw there (ih ∙ rw there refl)
        ]
  ]

  -- `cleanProvidersConfig` configures exactly the keys other than `version`, `pluginDownloadURL` and
  -- `executor`: with the object, or with the object that is written as JSON in the text, unless that is
  -- empty. One secret marker around either is dropped.
  pub lookup-clean_providers_config :
      (config : PropertyMap) (k : String) {out : Dict PropertyMap}
      → NodupMap config
      → clean_providers_config unmarshal_map new_property_map config ≡ ok out
      → lookup k out ≡ cleaned k (find k config)
  unfolding clean_providers_config lookup
  lookup-clean_providers_config config k u h = lookup-clean_loop config [] k u h ∙ or_else-none _

kept_azure :
    (config : Dict PropertyMap) (k : String) (m : PropertyMap)
    → lookup "azurerm" config ≡ some m
    → lookup k config
      ≡ or_else (lookup k config) (if k == "azurerm" then some azure_features else none)
kept_azure config k m e = elim (Bool-cases (k == "azurerm")) [
  | inl here ↦ rw ((eq_iff k "azurerm").0 here, e) refl
  | inr there ↦ rw there (sym (or_else-none (lookup k config)))
]

new_azure :
    (config : Dict PropertyMap) (k : String)
    → lookup "azurerm" config ≡ none
    → (if "azurerm" == k then some azure_features else lookup k config)
      ≡ or_else (lookup k config) (if k == "azurerm" then some azure_features else none)
new_azure config k e = elim (Bool-cases (k == "azurerm")) [
  | inl here ↦ rw ((eq_iff k "azurerm").0 here, e) refl
  | inr there ↦
      ground (arith, eq_iff k "azurerm", eq_iff "azurerm" k, or_else-none (lookup k config))
]

-- The provider azurerm, if the module has variables for it and it is not configured, gets an empty block
-- of features; every other configuration stays.
pub lookup-fixup_providers_config :
    (config : Dict PropertyMap) (variables : List String) (k : String)
    → lookup k (fixup_providers_config config variables)
      ≡ or_else (lookup k config) (
          if k == "azurerm"
          then (if contains variables "azurerm" then some azure_features else none)
          else none)
unfolding fixup_providers_config
lookup-fixup_providers_config config [] k = ground (arith, or_else-none (lookup k config))
lookup-fixup_providers_config config (v ∷ vs) k = elim (Bool-cases (contains (v ∷ vs) "azurerm")) [
  | inr unused ↦ rw unused (ground (arith, or_else-none (lookup k config)))
  | inl used ↦ elim (Option-cases (lookup "azurerm" config)) [
    | inr (m, e) ↦ rw (used, e) (kept_azure config k m e)
    | inl e ↦ rw (used, e) (lookup-insert "azurerm" k azure_features config ∙ new_azure config k e)
  ]
]
