-- ===== src/TfSandbox/Replace/Paths.antt =====
-- What `mapReplv` does along a path of object keys.
use pulumi_terraform_module.Prelude.{
  String, ◌≡◌, ◌⊎◌, ap, Bool, true, false, not, none, some, List, [], ◌∷◌, Bool-cases, Option-cases,
  inl, inr, arith, if◌then◌else◌,
}
use pulumi_terraform_module.Prelude.Outcome.{ok, >>=-eq-ok}
use pulumi_terraform_module.Pulumi.Json
use pulumi_terraform_module.Pulumi.Json.{Json, NodupMembers, NodupFields-find}
use pulumi_terraform_module.Pulumi.Value.{
  PropertyValue, PropertyMap, object, is_object, get_or_null,
}
use pulumi_terraform_module.TfSandbox.Replace.{Mapped, map_replv, update_resource_value, fields_of}
use pulumi_terraform_module.TfSandbox.Replace.Calls.{
  content, object_call, present, map_replv-object, map_fields_absent, map_fields_present,
}

-- The value behind a path of keys, null where the path leaves the objects.
unfoldable pub at_path : List String → PropertyValue → PropertyValue
at_path [] v = v
at_path (k ∷ p) v = at_path p (get_or_null k (fields_of v))

-- The filter has the marker `true` at the end of the path.
unfoldable pub is_marked : List String → Json → Bool
unfolding Json.find
is_marked [] (Json.bool b) = b
is_marked (k ∷ p) (Json.object m) = elim (Json.find k m) [ none ↦ false | some f ↦ is_marked p f ]
is_marked _ _ = false

module _ (replv : PropertyValue → PropertyValue) where
  -- Where the filter has a marker, the new content is what `replv` makes of the old one.
  map_replv-marked :
      (p : List String) (f : Json) (old : PropertyValue) {r : Mapped}
      → NodupMembers f
      → is_marked p f ≡ true
      → map_replv replv f old ≡ ok r
      → (r.marked ≡ true) × (at_path p r.value ≡ replv (at_path p old))
  unfolding map_replv is_marked at_path NodupMembers
  map_replv-marked [] (Json.bool true) old u m h = (ground arith, ground arith)
  map_replv-marked [] f old u m h = cc
  map_replv-marked (k ∷ p) (Json.object fs) old u m h = elim (Option-cases (Json.find k fs)) [
    | inl e ↦ cc (rw (e, is_marked) at m)
    | inr (f, e) ↦ elim (map_replv-object replv fs old h) [
      | object_call q fields made marks _ ↦
          elim (map_fields_present replv k f fs (fields_of old) u e fields) [
            | present a call got up ↦
                let (on, found) =
                  map_replv-marked p f (get_or_null k (fields_of old)) (NodupFields-find k fs u e)
                    (rw (e, is_marked) at m) call in
                (ground (arith, up on), rw made (rw got (rw on found)))
          ]
    ]
  ]
  map_replv-marked (k ∷ p) f old u m h = cc

-- The filter says nothing along the path: its objects lack a key of it, or lead to `false`.
abbrev pub is_untouched : List String → Json → Bool
is_untouched p (Json.bool b) = not b
is_untouched (k ∷ p) (Json.object m) = elim (Json.find k m) [
  | none ↦ true
  | some f ↦ is_untouched p f
]
is_untouched _ _ = false

content_cases :
    (old : PropertyValue) (r : Mapped) (m : PropertyMap)
    → r.value ≡ object m
    → r.kept ≡ (if is_object old then object m else old)
    → (content r ≡ object m) ⊎ (content r ≡ old)
content_cases old r m made left = elim (Bool-cases r.marked) [
  | inl on ↦ inl (rw on made)
  | inr off ↦ elim (Bool-cases (is_object old)) [
    | inl is ↦ inl (rw off (rw is at left))
    | inr other ↦ inr (rw off (rw other at left))
  ]
]

module _ (replv : PropertyValue → PropertyValue) where
  map_replv-untouched :
      (p : List String) (f : Json) (old : PropertyValue) {r : Mapped}
      → NodupMembers f
      → is_untouched p f ≡ true
      → map_replv replv f old ≡ ok r
      → at_path p (content r) ≡ at_path p old
  unfolding map_replv at_path NodupMembers
  map_replv-untouched p (Json.bool true) old u m h = cc
  map_replv-untouched p (Json.bool false) old u m h = ap (at_path p) (ground arith)
  map_replv-untouched (k ∷ p) (Json.object fs) old {r} u m h =
      elim (map_replv-object replv fs old h) [
        | object_call q fields made _ left ↦ elim (content_cases old r q.fields made left) [
          | inr same ↦ rw same
          | inl new ↦ elim (Option-cases (Json.find k fs)) [
            | inl e ↦ rw (new, map_fields_absent replv k fs (fields_of old) e fields)
            | inr (f, e) ↦ elim (map_fields_present replv k f fs (fields_of old) u e fields) [
              | present a call got _ ↦
                  rw (new, got)
                    (map_replv-untouched p f (get_or_null k (fields_of old))
                      (NodupFields-find k fs u e) (rw (e, is_untouched) at m) call)
            ]
          ]
        ]
      ]
  map_replv-untouched _ f old u m h = cc

  update-eq-ok :
      (old : PropertyValue) (f : Json) {v : PropertyValue}
      → update_resource_value replv old f ≡ ok v
      → (r : Mapped) × (map_replv replv f old ≡ ok r) × (v ≡ content r)
  unfolding update_resource_value
  update-eq-ok old f h =
      let (r, p, e) = >>=-eq-ok (map_replv replv f old) _ h in (r, p, ground arith)

  -- `updateResourceValue` misses no marker: at every path of object keys at which the filter holds
  -- `true`, the result holds what `replv` makes of the value that was there (null, if there was none).
  pub update_resource_value-marked :
      (p : List String) (old : PropertyValue) (f : Json) {v : PropertyValue}
      → NodupMembers f
      → is_marked p f ≡ true
      → update_resource_value replv old f ≡ ok v
      → at_path p v ≡ replv (at_path p old)
  update_resource_value-marked p old f u m h =
      let (r, call, e) = update-eq-ok old f h in
      let (on, found) = map_replv-marked replv p f old u m call in rw (e, on) found

  -- `updateResourceValue` changes nothing else: along every path of object keys of which the filter
  -- lacks a key, or that it leads to `false`, the result holds the value that was there.
  pub update_resource_value-untouched :
      (p : List String) (old : PropertyValue) (f : Json) {v : PropertyValue}
      → NodupMembers f
      → is_untouched p f ≡ true
      → update_resource_value replv old f ≡ ok v
      → at_path p v ≡ at_path p old
  update_resource_value-untouched p old f u m h =
      let (r, call, e) = update-eq-ok old f h in rw e (map_replv-untouched p f old u m call)
