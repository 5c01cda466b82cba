-- ===== src/Tests/Values.antt =====
-- Markers and keys at concrete values.
use pulumi_terraform_module.Prelude.{String, ◌≡◌, refl, true, false, [], ◌∷◌, ◌==◌, if◌then◌else◌}
use pulumi_terraform_module.Prelude.Outcome.{ok, panic}
use pulumi_terraform_module.Pulumi.Json
use pulumi_terraform_module.Pulumi.Json.{Json, NodupMembers}
use pulumi_terraform_module.Pulumi.Value
use pulumi_terraform_module.Pulumi.Value.{PropertyValue, null, string, secret, object, array, entry}
use pulumi_terraform_module.TfSandbox.Keys.{pulumi_top_level_key, decode_pulumi_top_level_key}
use pulumi_terraform_module.TfSandbox.Keys.Laws.{decode-top_level_key}
use pulumi_terraform_module.TfSandbox.Secrets.{make_secret_conservative}
use pulumi_terraform_module.TfSandbox.Replace.{update_resource_value}
use pulumi_terraform_module.TfSandbox.Replace.Paths.{
  at_path, is_marked, update_resource_value-marked, update_resource_value-untouched,
}
use pulumi_terraform_module.TfSandbox.Replace.Total.{
  is_array_free, is_plain, update_resource_value_total,
}

-- { "db": { "password": true }, "name": false }
abbrev filter : Json
filter = Json.object (
    Json.member "db" (Json.object (Json.member "password" (Json.bool true) Json.end))
      (Json.member "name" (Json.bool false) Json.end))

abbrev plain : PropertyValue
plain = object (
    entry "name" (string "main") (
      entry "db" (object (entry "password" (string "x") (entry "port" (string "1") Value.end)))
        Value.end))

abbrev hidden : PropertyValue
hidden = object (
    entry "name" (string "main") (
      entry "db"
        (object (entry "password" (secret (string "x")) (entry "port" (string "1") Value.end)))
        Value.end))

filter_nodup : NodupMembers filter
unfolding NodupMembers Json.find
filter_nodup = (refl, (refl, tt, tt), (refl, tt, tt))

update_run : update_resource_value make_secret_conservative plain filter ≡ ok hidden
unfolding update_resource_value make_secret_conservative
update_run = refl

password_marked : is_marked ("db" ∷ "password" ∷ []) filter ≡ true
unfolding is_marked
password_marked = refl

update_resource_value-marked_example :
    at_path ("db" ∷ "password" ∷ []) hidden
    ≡ make_secret_conservative (at_path ("db" ∷ "password" ∷ []) plain)
update_resource_value-marked_example =
    update_resource_value-marked make_secret_conservative ("db" ∷ "password" ∷ []) plain filter
      filter_nodup password_marked update_run

update_resource_value-untouched_example :
    at_path ("db" ∷ "port" ∷ []) hidden ≡ at_path ("db" ∷ "port" ∷ []) plain
unfolding Json.find
update_resource_value-untouched_example =
    update_resource_value-untouched make_secret_conservative ("db" ∷ "port" ∷ []) plain filter
      filter_nodup refl update_run

-- A filter that is longer than the value's array and marks nothing leaves the array as it is.
long_filter_untouched :
    update_resource_value make_secret_conservative
      (array (Value.cons (string "a") Value.nil))
      (Json.array (Json.cons (Json.bool false) (Json.cons (Json.bool false) Json.nil)))
    ≡ ok (array (Value.cons (string "a") Value.nil))
unfolding update_resource_value
long_filter_untouched = refl

-- A marker inside an array that the value has empty: `slices.Replace` panics.
empty_array_panics :
    update_resource_value make_secret_conservative
      (array Value.nil)
      (Json.array (Json.cons (Json.bool true) Json.nil))
    ≡ panic
unfolding update_resource_value
empty_array_panics = refl

-- A filter that marks nothing still moves the nulls of an array to its end.
nulls_move :
    update_resource_value make_secret_conservative
      (array (Value.cons null (Value.cons (string "a") Value.nil)))
      (Json.array (Json.cons (Json.bool false) (Json.cons (Json.bool false) Json.nil)))
    ≡ ok (array (Value.cons (string "a") (Value.cons null Value.nil)))
unfolding update_resource_value
nulls_move = refl

decode-top_level_key_example :
    (e : String) × (pulumi_top_level_key "id" ≡ ok e)
    × (decode_pulumi_top_level_key e ≡ (if "id_" == "id" then "id" else "id"))
decode-top_level_key_example = decode-top_level_key "id"

filter_array_free : is_array_free filter ≡ true
unfolding is_array_free
filter_array_free = refl

plain_value_run : is_plain plain ≡ true
unfolding is_plain
plain_value_run = refl

update_resource_value_total_example :
    (v : PropertyValue) × (update_resource_value make_secret_conservative plain filter ≡ ok v)
update_resource_value_total_example =
    update_resource_value_total make_secret_conservative plain filter filter_nodup filter_array_free
      plain_value_run
