-- ===== src/TfSandbox/Replace/Total.antt =====
-- `mapReplv` returns on the values and filters that Terraform gives.
use pulumi_terraform_module.Prelude.{
  String, ◌≡◌, refl, Bool, true, false, ◌&&◌, ◌||◌, none, some, ◌==◌, eq_iff, eq_refl, Bool-cases,
  inl, inr, if◌then◌else◌,
}
use pulumi_terraform_module.Prelude.Outcome.{ok}
use pulumi_terraform_module.Pulumi.Json
use pulumi_terraform_module.Pulumi.Json.{Json, Members, NodupMembers, NodupFields}
use pulumi_terraform_module.Pulumi.Value.{
  PropertyValue, PropertyMap, object, is_object, entry, find, get_or_null,
}
use pulumi_terraform_module.TfSandbox.Replace.{
  Mapped, MappedMap, store, map_replv, map_fields, is_expected, fields_of, update_resource_value,
}
use pulumi_terraform_module.TfSandbox.Replace.Calls.{get_or_null-store}

-- The filter has no array: Terraform marks whole arrays.
unfoldable mutual
  pub is_array_free : Json → Bool
  is_array_free (Json.array xs) = false
  is_array_free (Json.object m) = are_array_free m
  is_array_free _ = true

  are_array_free : Members → Bool
  are_array_free Members.end = true
  are_array_free (Members.member k f m) = is_array_free f && are_array_free m

-- No asset, archive, reference or secret along the objects of the value, as in what comes from JSON.
unfoldable mutual
  pub is_plain : PropertyValue → Bool
  is_plain (object m) = are_plain m
  is_plain v = is_expected v

  are_plain : PropertyMap → Bool
  are_plain PropertyMap.end = true
  are_plain (entry k v m) = is_plain v && are_plain m

from_and : (b c : Bool) → (b && c) ≡ true → (b ≡ true) × (c ≡ true)
from_and true c h = (refl, h)
from_and false c h = cc

is_plain-get_or_null :
    (k : String) (m : PropertyMap) → are_plain m ≡ true → is_plain (get_or_null k m) ≡ true
unfolding is_plain get_or_null find
is_plain-get_or_null k PropertyMap.end h = refl
is_plain-get_or_null k (entry j v m) h = elim (Bool-cases (j == k)) [
  | inl e ↦ rw (e, get_or_null, find) ((from_and (is_plain v) (are_plain m) h).0)
  | inr e ↦
      rw (e, get_or_null, find)
        (is_plain-get_or_null k m ((from_and (is_plain v) (are_plain m) h).1))
]

is_plain-fields_of : (v : PropertyValue) → is_plain v ≡ true → are_plain (fields_of v) ≡ true
unfolding is_plain
is_plain-fields_of (object m) h = h
is_plain-fields_of _ h = refl

is_expected-is_plain : (v : PropertyValue) → is_plain v ≡ true → is_expected v ≡ true
unfolding is_plain
is_expected-is_plain (object m) h = refl
is_expected-is_plain _ h = h

find_here : (k : String) (f : Json) (fs : Members) → Json.find k (Json.member k f fs) ≡ some f
unfolding Json.find
find_here k f fs = rw (eq_refl k) refl

find_there :
    (k j : String) (f g : Json) (fs : Members)
    → (k == j) ≡ false
    → Json.find j fs ≡ some g
    → Json.find j (Json.member k f fs) ≡ some g
unfolding Json.find
find_there k j f g fs away has = rw away has

not_again :
    (k j : String) (g : Json) (fs : Members)
    → Json.find k fs ≡ none
    → Json.find j fs ≡ some g
    → (k == j) ≡ false
not_again k j g fs absent has = elim (Bool-cases (k == j)) [
  | inr e ↦ e
  | inl e ↦ cc (rw ((eq_iff k j).0 e) at absent, has)
]

module _ (replv : PropertyValue → PropertyValue) where
  mutual
    unfolding map_replv is_array_free NodupMembers

    map_replv_total :
        (f : Json) (old : PropertyValue)
        → NodupMembers f
        → is_array_free f ≡ true
        → is_plain old ≡ true
        → (r : Mapped) × (map_replv replv f old ≡ ok r)
    map_replv_total (Json.array xs) old u a p = cc
    map_replv_total (Json.object fs) old u a p =
        let (r, e) =
          map_fields_total fs (fields_of old) u a
            λ k f has. is_plain-get_or_null k (fields_of old) (is_plain-fields_of old p) in
        (
          record {
            value = object r.fields;
            marked = r.marked;
            kept = if is_object old then object r.fields else old;
          },
          rw (is_expected-is_plain old p, e) refl,
        )
    map_replv_total (Json.bool true) old u a p = (
      record { value = replv old; marked = true; kept = old },
      rw (is_expected-is_plain old p) refl,
    )
    map_replv_total (Json.bool false) old u a p =
        (record { value = old; marked = false; kept = old }, rw (is_expected-is_plain old p) refl)
    map_replv_total _ old u a p =
        (record { value = old; marked = true; kept = old }, rw (is_expected-is_plain old p) refl)

    map_fields_total :
        (fs : Members) (m : PropertyMap)
        → NodupFields fs
        → is_array_free (Json.object fs) ≡ true
        → ((k : String) (f : Json) → Json.find k fs ≡ some f → is_plain (get_or_null k m) ≡ true)
        → (r : MappedMap) × (map_fields replv fs m ≡ ok r)
    map_fields_total Members.end m u a p = (_, refl)
    map_fields_total (Members.member k f fs) m u a p =
        let (free, later) = from_and (is_array_free f) (is_array_free (Json.object fs)) a in
        let (r, e) = map_replv_total f (get_or_null k m) u.1 free (p k f (find_here k f fs)) in
        let (q, e') = map_fields_total fs (store k r m) u.2 later λ j g has.
          let away = not_again k j g fs u.0 has in
          rw (get_or_null-store k j r m away) (p j g (find_there k j f g fs away has)) in
        (record { fields = q.fields; marked = r.marked || q.marked }, rw (e, e') refl)

  -- `updateResourceValue` returns, without a panic, on every value without assets, archives, references
  -- and secrets, for every filter without arrays: markers are objects down to a Boolean.
  pub update_resource_value_total :
      (old : PropertyValue) (f : Json)
      → NodupMembers f
      → is_array_free f ≡ true
      → is_plain old ≡ true
      → (v : PropertyValue) × (update_resource_value replv old f ≡ ok v)
  unfolding update_resource_value
  update_resource_value_total old f u a p =
      let (r, e) = map_replv_total f old u a p in (if r.marked then r.value else r.kept, rw e refl)
