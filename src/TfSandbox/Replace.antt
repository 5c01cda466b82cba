-- ===== src/TfSandbox/Replace.antt =====
-- pkg/tfsandbox/resources.go, `mapReplv` and `updateResourceValue`: the markers of a filter document
-- (`after_unknown`, `after_sensitive`, `sensitive_values`) applied to a value.
--
-- Go's maps and slices are references, and `mapReplv` writes through those of its argument. So a call
-- returns, beside the new value and the flag, what the argument holds after the call (`kept`).
pub mod Calls
pub mod Paths
pub mod Total
use pulumi_terraform_module.Prelude.{
  ℕ, zero, suc, ◌-◌, Bool, true, false, ◌||◌, ltb, eqb, String, if◌then◌else◌,
}
use pulumi_terraform_module.Prelude.Outcome.{Outcome, ok, panic, assert, ◌>>=◌, ◌>>◌}
use pulumi_terraform_module.Pulumi.Json
use pulumi_terraform_module.Pulumi.Json.{Json, Items, Members}
use pulumi_terraform_module.Pulumi.Value
use pulumi_terraform_module.Pulumi.Value.{
  PropertyValue, Values, PropertyMap, null, array, object, nil, cons, is_null, is_object,
  get_or_null, insert, write_back,
}

pub record Mapped : Type 0 where
  pub value : PropertyValue
  pub marked : Bool
  pub kept : PropertyValue

pub record MappedMap : Type 0 where
  pub fields : PropertyMap
  pub marked : Bool

-- The slice after the loop, and what the elements of the argument hold.
pub record MappedArray : Type 0 where
  pub values : Values
  pub marked : Bool
  pub kept : Values

-- The assertion at the head of `mapReplv`.
abbrev pub is_expected : PropertyValue → Bool
is_expected (PropertyValue.archive a) = false
is_expected (PropertyValue.asset a) = false
is_expected (PropertyValue.resource_reference r) = false
is_expected (PropertyValue.secret v) = false
is_expected _ = true

abbrev pub fields_of : PropertyValue → PropertyMap
fields_of (object m) = m
fields_of _ = PropertyMap.end

unfoldable pub nulls : ℕ → Values
nulls zero = nil
nulls (suc n) = cons null (nulls n)

unfoldable pub append : Values → Values → Values
append nil ys = ys
append (cons x xs) ys = cons x (append xs ys)

-- `arrValue` before the loop, for a filter of `n` items: `make`, and `slices.Replace(arrValue, 0,
-- len(oldArray)-1, oldArray...)`, which panics on the range from 0 to -1.
unfoldable pub initial_array : ℕ → PropertyValue → Outcome Values
unfolding nulls append
initial_array n (array xs) =
    if ltb (Value.count xs) n
    then if eqb (Value.count xs) 0 then panic else ok (append xs (nulls (n - (Value.count xs - 1))))
    else ok xs
initial_array n _ = ok (nulls n)

-- `slices.DeleteFunc(arrValue, IsNull)`
unfoldable pub delete_nulls : Values → Values
delete_nulls nil = nil
delete_nulls (cons x xs) = let rest = delete_nulls xs in if is_null x then rest else cons x rest

-- The first elements, as many as the argument's slice has.
unfoldable pub front : Values → Values → Values
front nil ys = nil
front (cons x xs) nil = nil
front (cons x xs) (cons y ys) = cons y (front xs ys)

-- The argument after the call: if the loop worked on a slice of its own, the argument has the elements
-- that it had, with what the loop left in them; otherwise `DeleteFunc` moved the elements that it keeps
-- to the front and cleared the rest.
unfoldable pub array_after : ℕ → PropertyValue → MappedArray → PropertyValue
unfolding nulls append delete_nulls front
array_after n (array xs) r =
    if ltb (Value.count xs) n
    then array (front xs r.kept)
    else array (
        append (delete_nulls r.values)
          (nulls (Value.count r.values - Value.count (delete_nulls r.values))))
array_after n other r = other

-- `objValue[key]` after the call for the key: the new value if a marker was found, otherwise what the
-- call left in the entry that was there.
unfoldable pub store : String → Mapped → PropertyMap → PropertyMap
store k r m = if r.marked then insert k r.value m else write_back k r.kept m

module _ (replv : PropertyValue → PropertyValue) where
  unfoldable mutual
    unfolding initial_array array_after delete_nulls get_or_null store insert write_back

    pub map_replv : Json → PropertyValue → Outcome Mapped
    map_replv (Json.bool true) old = do
      assert (is_expected old)
      ok (record { value = replv old; marked = true; kept = old })
    map_replv (Json.bool false) old = do
      assert (is_expected old)
      ok (record { value = old; marked = false; kept = old })
    map_replv (Json.object f) old = do
      assert (is_expected old)
      r ← map_fields f (fields_of old)
      ok (record {
        value = object r.fields;
        marked = r.marked;
        kept = if is_object old then object r.fields else old;
      })
    map_replv (Json.array f) old = do
      assert (is_expected old)
      start ← initial_array (Json.count f) old
      r ← map_items f start
      ok (record {
        value = array (delete_nulls r.values);
        marked = r.marked;
        kept = array_after (Json.count f) old r;
      })
    map_replv _ old = do
      assert (is_expected old)
      ok (record { value = old; marked = true; kept = old })

    -- The loop over the filter's keys. An entry that holds no marker keeps its place, with what the
    -- call left in it.
    pub map_fields : Members → PropertyMap → Outcome MappedMap
    map_fields Members.end m = ok (record { fields = m; marked = false })
    map_fields (Members.member k f fs) m = do
      r ← map_replv f (get_or_null k m)
      rest ← map_fields fs (store k r m)
      ok (record { fields = rest.fields; marked = r.marked || rest.marked })

    -- The loop over the filter's items. Beyond the slice's end a marker is written out of range.
    pub map_items : Items → Values → Outcome MappedArray
    map_items Items.nil xs = ok (record { values = xs; marked = false; kept = xs })
    map_items (Items.cons f fs) nil = do
      r ← map_replv f null
      rest ← map_items fs nil
      if r.marked then panic else ok rest
    map_items (Items.cons f fs) (cons x xs) = do
      r ← map_replv f x
      rest ← map_items fs xs
      ok (record {
        values = cons (if r.marked then r.value else r.kept) rest.values;
        marked = r.marked || rest.marked;
        kept = cons r.kept rest.kept;
      })

  -- `updateResourceValue`
  unfoldable pub update_resource_value : PropertyValue → Json → Outcome PropertyValue
  unfolding map_replv
  update_resource_value old filter = do
    r ← map_replv filter old
    ok (if r.marked then r.value else r.kept)
