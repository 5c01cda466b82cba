-- ===== src/TfSandbox/Replace/Calls.antt =====
-- The parts of a call of `mapReplv` that returned, and what its loop over keys does to each key.
use pulumi_terraform_module.Prelude.{
  String, ◌≡◌, ◌||◌, true, false, none, some, some-injective, Bool-cases, inl, inr, ◌==◌, eq_iff,
  eq_refl, ◌∙◌, arith, if◌then◌else◌,
}
use pulumi_terraform_module.Prelude.Outcome.{ok, assert, >>=-eq-ok}
use pulumi_terraform_module.Pulumi.Json
use pulumi_terraform_module.Pulumi.Json.{Json, Items, Members, NodupMembers, NodupFields}
use pulumi_terraform_module.Pulumi.Value.{
  PropertyValue, Values, PropertyMap, null, object, array, is_object, get_or_null, find-insert,
  find-write_back,
}
use pulumi_terraform_module.TfSandbox.Replace.{
  Mapped, MappedMap, MappedArray, store, map_replv, map_fields, map_items, initial_array,
  array_after, delete_nulls, is_expected, fields_of,
}

pub get_or_null-store :
    (k j : String) (a : Mapped) (m : PropertyMap)
    → (k == j) ≡ false
    → get_or_null j (store k a m) ≡ get_or_null j m
unfolding get_or_null store
get_or_null-store k j a m h =
    ground (arith, find-insert k j a.value m, find-write_back k j a.kept m)

-- What a call leaves of its argument, read as the new content.
abbrev pub content : Mapped → PropertyValue
content a = if a.marked then a.value else a.kept

get_or_null-store_self :
    (k : String) (a : Mapped) (m : PropertyMap)
    → (get_or_null k m ≡ null → a.kept ≡ null)
    → get_or_null k (store k a m) ≡ content a
unfolding get_or_null store
get_or_null-store_self k a m absent =
    ground (arith, find-insert k k a.value m, find-write_back k k a.kept m, eq_refl k)

module _ (replv : PropertyValue → PropertyValue) where
  -- The parts of a call that returned.
  pub data Object (fs : Members) (old : PropertyValue) (r : Mapped) : Type 0 where
    object_call :
        (q : MappedMap)
        → map_fields replv fs (fields_of old) ≡ ok q
        → r.value ≡ object q.fields
        → r.marked ≡ q.marked
        → r.kept ≡ (if is_object old then object q.fields else old)
        → Object fs old r

  pub data Array (fs : Items) (old : PropertyValue) (r : Mapped) : Type 0 where
    array_call :
        (start : Values) (q : MappedArray)
        → initial_array (Json.count fs) old ≡ ok start
        → map_items replv fs start ≡ ok q
        → r.value ≡ array (delete_nulls q.values)
        → r.marked ≡ q.marked
        → r.kept ≡ array_after (Json.count fs) old q
        → Array fs old r

  pub data Field (k : String) (f : Json) (fs : Members) (m : PropertyMap) (r : MappedMap)
      : Type 0 where
    field_call :
        (a : Mapped) (rest : MappedMap)
        → map_replv replv f (get_or_null k m) ≡ ok a
        → map_fields replv fs (store k a m) ≡ ok rest
        → r.fields ≡ rest.fields
        → r.marked ≡ a.marked || rest.marked
        → Field k f fs m r

  pub map_replv-object :
      (fs : Members) (old : PropertyValue) {r : Mapped}
      → map_replv replv (Json.object fs) old ≡ ok r
      → Object fs old r
  unfolding map_replv
  map_replv-object fs old h =
      let (_, _, h') = >>=-eq-ok (assert (is_expected old)) _ h in
      let (q, p, e) = >>=-eq-ok (map_fields replv fs (fields_of old)) _ h' in
      object_call q p (ground arith) (ground arith) (ground arith)

  pub map_replv-array :
      (fs : Items) (old : PropertyValue) {r : Mapped}
      → map_replv replv (Json.array fs) old ≡ ok r
      → Array fs old r
  unfolding map_replv
  map_replv-array fs old h =
      let (_, _, h') = >>=-eq-ok (assert (is_expected old)) _ h in
      let (start, p, h'') = >>=-eq-ok (initial_array (Json.count fs) old) _ h' in
      let (q, p', e) = >>=-eq-ok (map_items replv fs start) _ h'' in
      array_call start q p p' (ground arith) (ground arith) (ground arith)

  pub map_fields-member :
      (k : String) (f : Json) (fs : Members) (m : PropertyMap) {r : MappedMap}
      → map_fields replv (Members.member k f fs) m ≡ ok r
      → Field k f fs m r
  unfolding map_replv
  map_fields-member k f fs m {r} h =
      let (a, p, h') = >>=-eq-ok (map_replv replv f (get_or_null k m)) _ h in
      let (rest, q, e) = >>=-eq-ok (map_fields replv fs (store k a m)) _ h' in
      field_call a rest p q (ground arith) (ground arith)

  kept-null : (f : Json) {a : Mapped} → map_replv replv f null ≡ ok a → a.kept ≡ null
  unfolding map_replv
  kept-null (Json.bool true) h = ground arith
  kept-null (Json.bool false) h = ground arith
  kept-null (Json.object fs) h = elim (map_replv-object fs null h) [ object_call _ _ _ _ e ↦ e ]
  kept-null (Json.array fs) h = elim (map_replv-array fs null h) [ array_call _ _ _ _ _ _ e ↦ e ]
  kept-null _ h = ground arith

  kept_absent :
      (f : Json) (v : PropertyValue) {a : Mapped}
      → map_replv replv f v ≡ ok a
      → v ≡ null
      → a.kept ≡ null
  kept_absent f v h e = kept-null f (rw e at h)

  -- A key that the filter lacks reads as before after the loop.
  pub map_fields_absent :
      (k : String) (fs : Members) (m : PropertyMap) {r : MappedMap}
      → Json.find k fs ≡ none
      → map_fields replv fs m ≡ ok r
      → get_or_null k r.fields ≡ get_or_null k m
  unfolding map_replv Json.find
  map_fields_absent k Members.end m absent h = ground arith
  map_fields_absent k (Members.member j f fs) m absent h = elim (map_fields-member j f fs m h) [
    | field_call a rest p q same _ ↦ rw same (
        map_fields_absent k fs (store j a m) (ground arith) q
        ∙ get_or_null-store j k a m (ground arith))
  ]

  -- The call for a key of the filter, and where its result goes.
  pub data FieldFound (k : String) (f : Json) (m : PropertyMap) (r : MappedMap) : Type 0 where
    present :
        (a : Mapped)
        → map_replv replv f (get_or_null k m) ≡ ok a
        → get_or_null k r.fields ≡ content a
        → (a.marked ≡ true → r.marked ≡ true)
        → FieldFound k f m r

  present_here :
      (k : String) (f : Json) (fs : Members) (m : PropertyMap) {r : MappedMap}
      → Json.find k fs ≡ none
      → Field k f fs m r
      → FieldFound k f m r
  present_here k f fs m absent (field_call a rest p q same either) =
      present a p
        (rw same (
          map_fields_absent k fs (store k a m) absent q
          ∙ get_or_null-store_self k a m (kept_absent f (get_or_null k m) p)))
        (λ on. ground arith)

  present_there :
      (k j : String) (f : Json) (m : PropertyMap) (a : Mapped) {r rest : MappedMap}
      → (j == k) ≡ false
      → r.fields ≡ rest.fields
      → r.marked ≡ a.marked || rest.marked
      → FieldFound k f (store j a m) rest
      → FieldFound k f m r
  present_there k j f m a other same either (present b call got up) =
      present b (rw (get_or_null-store j k a m other) at call) (rw same got)
        (λ on. ground (arith, up on))

  pub map_fields_present :
      (k : String) (f : Json) (fs : Members) (m : PropertyMap) {r : MappedMap}
      → NodupFields fs
      → Json.find k fs ≡ some f
      → map_fields replv fs m ≡ ok r
      → FieldFound k f m r
  unfolding Json.find NodupMembers
  map_fields_present k f Members.end m u found h = cc
  map_fields_present k f (Members.member j g fs) m u found h = elim (Bool-cases (j == k)) [
    | inl here ↦
        let e = (eq_iff j k).0 here in
        present_here k f fs m (rw e at (u.0)) (
          rw (e, some-injective g f (rw (here, Json.find) at found)) at
            (map_fields-member j g fs m h))
    | inr there ↦ elim (map_fields-member j g fs m h) [
      | field_call a rest p q same either ↦
          present_there k j f m a there same either
            (map_fields_present k f fs (store j a m) u.2 (rw (there, Json.find) at found) q)
    ]
  ]
