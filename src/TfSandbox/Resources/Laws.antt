-- ===== src/TfSandbox/Resources/Laws.antt =====
-- Which resources of a document are found by address, and that the sensitive markers reach the
-- properties.
use pulumi_terraform_module.Prelude.{
  String, ◌≡◌, refl, ◌∙◌, Bool, true, not, ◌&&◌, Option, none, some, List, [], ◌∷◌, ◌++◌, ◌==◌,
  or_else, Option-cases, inl, inr, eq_iff, arith, if◌then◌else◌,
}
use pulumi_terraform_module.Prelude.Outcome.{ok, >>=-eq-ok}
use pulumi_terraform_module.Prelude.Dict.{lookup, insert, lookup-insert}
use pulumi_terraform_module.Pulumi.Json.{Json, NodupMembers}
use pulumi_terraform_module.Pulumi.Value.{PropertyValue, PropertyMap, object}
use pulumi_terraform_module.TfSandbox.Secrets.{make_secret_conservative}
use pulumi_terraform_module.TfSandbox.Replace.{update_resource_value}
use pulumi_terraform_module.TfSandbox.Replace.Paths.{
  at_path, is_marked, update_resource_value-marked,
}
use pulumi_terraform_module.TfSandbox.Resources.{
  StateResource, StateModule, make_module, ChildModules, end, child, unknown_proxy_address,
  StateResources, add_resources, extract_resources, extract_children, new_state_resources,
  from_attribute_values, from_state, object_value,
}

-- The resources of a module and of those below it, the children's first.
unfoldable mutual
  pub all_resources : StateModule → List StateResource
  all_resources (make_module rs children) = all_children children ++ rs

  all_children : ChildModules → List StateResource
  all_children end = []
  all_children (child m rest) = all_resources m ++ all_children rest

-- A resource proper, and not the stand-in for unknown values.
abbrev pub is_reported : StateResource → Bool
is_reported r = not r.is_data && not (r.address == unknown_proxy_address)

-- The last reported resource with the address.
abbrev pub last_at : String → List StateResource → Option StateResource
last_at a [] = none
last_at a (r ∷ rs) =
    or_else (last_at a rs) (if is_reported r && (r.address == a) then some r else none)

last_at-append :
    (a : String) (rs ss : List StateResource)
    → last_at a (rs ++ ss) ≡ or_else (last_at a ss) (last_at a rs)
last_at-append a [] ss = ground arith
last_at-append a (r ∷ rs) ss = rw (last_at-append a rs ss) (ground arith)

lookup-add_resources :
    (a : String) (rs : List StateResource) (sr : StateResources)
    → lookup a (add_resources rs sr) ≡ or_else (last_at a rs) (lookup a sr)
unfolding add_resources
lookup-add_resources a [] sr = refl
lookup-add_resources a (r ∷ rs) sr =
    rw
      (lookup-add_resources a rs (
        if r.is_data
        then sr
        else if r.address == unknown_proxy_address
        then sr
        else insert r.address r sr))
      (ground (arith, lookup-insert r.address a r sr))

pub address-last_at :
    (a : String) (rs : List StateResource) {r : StateResource}
    → last_at a rs ≡ some r
    → r.address ≡ a
address-last_at a [] h = cc
address-last_at a (s ∷ rs) {r} h = elim (Option-cases (last_at a rs)) [
  | inl e ↦ ground (arith, eq_iff s.address a)
  | inr (q, e) ↦ address-last_at a rs (e ∙ rw (e) at h)
]

mutual
  unfolding extract_resources all_resources

  lookup-extract_resources :
      (m : StateModule) (a : String) (sr : StateResources)
      → lookup a (extract_resources m sr) ≡ or_else (last_at a (all_resources m)) (lookup a sr)
  lookup-extract_resources (make_module rs children) a sr =
      rw
        (
          lookup-add_resources a rs (extract_children children sr),
          lookup-extract_children children a sr,
          last_at-append,
        )
        (ground arith)

  lookup-extract_children :
      (c : ChildModules) (a : String) (sr : StateResources)
      → lookup a (extract_children c sr) ≡ or_else (last_at a (all_children c)) (lookup a sr)
  lookup-extract_children end a sr = refl
  lookup-extract_children (child m rest) a sr =
      rw
        (
          lookup-extract_children rest a (extract_resources m sr),
          lookup-extract_resources m a sr,
          last_at-append,
        )
        (ground arith)

-- `newStateResources` finds at an address the last resource, at any depth, that has it and is neither
-- a data source nor the proxy for unknown values.
pub lookup-new_state_resources :
    (m : StateModule) (a : String)
    → lookup a (new_state_resources (some m)) ≡ last_at a (all_resources m)
unfolding new_state_resources lookup
lookup-new_state_resources m a = lookup-extract_resources m a [] ∙ ground arith

pub object_value-eq-ok :
    (v : PropertyValue) {m : PropertyMap} → object_value v ≡ ok m → v ≡ object m
object_value-eq-ok (object n) h = ground arith
object_value-eq-ok _ h = cc

module _ (new_value : Json → PropertyValue) (unmarshal : String → Option Json) where
  from_state-eq-ok :
      (r : StateResource) (text : String) (f : Json) {m : PropertyMap}
      → r.sensitive_values ≡ some text
      → unmarshal text ≡ some f
      → from_state new_value unmarshal r ≡ ok m
      → update_resource_value make_secret_conservative
          (object (from_attribute_values new_value r.attribute_values))
          f
        ≡ ok (object m)
  unfolding from_state
  from_state-eq-ok r text f has decodes h =
      let (v, call, e) =
        >>=-eq-ok
          (update_resource_value make_secret_conservative
            (object (from_attribute_values new_value r.attribute_values)) f)
          _ (rw (has, decodes, from_state) at h) in
      rw (object_value-eq-ok v e) at call

  -- `extractPropertyMapFromState` hides what the state marks as sensitive: at each path of keys that
  -- `sensitive_values` leads to `true`, the property is what `resourceMakeSecretConservative` makes of
  -- the attribute.
  pub from_state-sensitive :
      (r : StateResource) (text : String) (f : Json) (p : List String) {m : PropertyMap}
      → NodupMembers f
      → r.sensitive_values ≡ some text
      → unmarshal text ≡ some f
      → is_marked p f ≡ true
      → from_state new_value unmarshal r ≡ ok m
      → at_path p (object m)
        ≡ make_secret_conservative
            (at_path p (object (from_attribute_values new_value r.attribute_values)))
  from_state-sensitive r text f p u has decodes on h =
      update_resource_value-marked make_secret_conservative p _ f u on
        (from_state-eq-ok r text f has decodes h)
