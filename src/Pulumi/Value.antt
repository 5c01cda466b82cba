-- ===== src/Pulumi/Value.antt =====
-- `resource.PropertyValue` and `resource.PropertyMap` of the Pulumi SDK: the shapes that the
-- provider's code distinguishes (`IsNull` to `IsOutput`), and Go's map operations on the latter.
use pulumi_terraform_module.Prelude.{
  ℕ, suc, ◌≡◌, refl, String, Bool, true, false, Option, none, some, List, ◌==◌, eq_iff, arith,
  if◌then◌else◌,
}

mutual
  pub data PropertyValue : Type 0 where
    null : PropertyValue
    bool : Bool → PropertyValue
    -- the bit pattern of a `float64`
    number : ℕ → PropertyValue
    string : String → PropertyValue
    array : Values → PropertyValue
    object : PropertyMap → PropertyValue
    asset archive resource_reference : String → PropertyValue
    computed : PropertyValue → PropertyValue
    secret : PropertyValue → PropertyValue
    output : Output → PropertyValue

  pub data Values : Type 0 where
    nil : Values
    cons : PropertyValue → Values → Values

  pub data PropertyMap : Type 0 where
    end : PropertyMap
    entry : String → PropertyValue → PropertyMap → PropertyMap

  -- `Element`, `Known`, `Secret`, `Dependencies` of `resource.Output`
  pub data Output : Type 0 where
    make_output : PropertyValue → Bool → Bool → List String → Output

-- `v, ok := m[k]`
unfoldable pub find : String → PropertyMap → Option PropertyValue
find k end = none
find k (entry j v m) = if j == k then some v else find k m

-- The keys of the map are distinct.
abbrev pub NodupMap : PropertyMap → Type 0
NodupMap end = Unit
NodupMap (entry k v m) = (find k m ≡ none) × NodupMap m

-- `m[k]`: a missing key reads as the zero `PropertyValue`, which is null.
unfoldable pub get_or_null : String → PropertyMap → PropertyValue
unfolding find
get_or_null k m = elim (find k m) [ none ↦ null | some v ↦ v ]

-- `m[k] = v`
unfoldable pub insert : String → PropertyValue → PropertyMap → PropertyMap
insert k v end = entry k v end
insert k v (entry j w m) = if j == k then entry k v m else entry j w (insert k v m)

-- `delete(m, k)`
unfoldable pub erase : String → PropertyMap → PropertyMap
erase k end = end
erase k (entry j v m) = let rest = erase k m in if j == k then rest else entry j v rest

-- What a map that `k` is present in holds once the value behind `m[k]` was changed in place.
unfoldable pub write_back : String → PropertyValue → PropertyMap → PropertyMap
write_back k v end = end
write_back k v (entry j w m) = if j == k then entry j v m else entry j w (write_back k v m)

abbrev pub is_null : PropertyValue → Bool
is_null null = true
is_null _ = false

abbrev pub is_object : PropertyValue → Bool
is_object (object m) = true
is_object _ = false

-- `IsComputed() || IsOutput() && !OutputValue().Known`
abbrev pub is_unknown : PropertyValue → Bool
is_unknown (computed v) = true
is_unknown (output (make_output v true s d)) = false
is_unknown (output (make_output v false s d)) = true
is_unknown _ = false

-- `len` of a `[]resource.PropertyValue`
abbrev pub count : Values → ℕ
count nil = 0
count (cons x xs) = suc (count xs)

-- The laws of the map operations.
pub find-insert :
    (k j : String) (v : PropertyValue) (m : PropertyMap)
    → find j (insert k v m) ≡ (if k == j then some v else find j m)
unfolding find insert
find-insert k j v end = refl
find-insert k j v (entry i w m) =
    ground (arith, eq_iff k j, eq_iff i k, eq_iff i j, find-insert k j v m)

pub find-erase :
    (k j : String) (m : PropertyMap) → find j (erase k m) ≡ (if k == j then none else find j m)
unfolding find erase
find-erase k j end = ground arith
find-erase k j (entry i w m) = ground (arith, eq_iff k j, eq_iff i k, eq_iff i j, find-erase k j m)

abbrev pub replaced : PropertyValue → Option PropertyValue → Option PropertyValue
replaced v none = none
replaced v (some w) = some v

pub find-write_back :
    (k j : String) (v : PropertyValue) (m : PropertyMap)
    → find j (write_back k v m) ≡ (if k == j then replaced v (find j m) else find j m)
unfolding find write_back
find-write_back k j v end = ground arith
find-write_back k j v (entry i w m) =
    ground (arith, eq_iff k j, eq_iff i k, eq_iff i j, find-write_back k j v m)
