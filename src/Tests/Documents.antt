-- ===== src/Tests/Documents.antt =====
-- Plans and states at concrete documents.
use pulumi_terraform_module.Prelude.{
  String, ◌≡◌, refl, true, false, Option, none, some, [], ◌∷◌, ◌==◌, Bool-cases, inl, inr, eq_iff,
}
use pulumi_terraform_module.Prelude.Outcome.{ok}
use pulumi_terraform_module.Prelude.Dict.{lookup, NodupKeys}
use pulumi_terraform_module.Pulumi.Json
use pulumi_terraform_module.Pulumi.Json.{Json, Members, NodupMembers}
use pulumi_terraform_module.Pulumi.Value
use pulumi_terraform_module.Pulumi.Value.{PropertyValue, PropertyMap, string, secret, object, entry}
use pulumi_terraform_module.TfSandbox.Secrets.{make_secret_conservative}
use pulumi_terraform_module.TfSandbox.Replace.Paths.{at_path, is_marked}
use pulumi_terraform_module.TfSandbox.Resources.{
  StateResource, StateModule, make_module, ChildModules, child, new_state_resources, Actions,
  Change, ResourceChange, from_attribute_values, from_state,
}
use pulumi_terraform_module.TfSandbox.Resources.Laws.{
  all_resources, lookup-new_state_resources, from_state-sensitive,
}
use pulumi_terraform_module.TfSandbox.Outputs.{is_internal_output_resource, is_secret_key}
use pulumi_terraform_module.TfSandbox.Plan.{
  RawPlan, Plan, new_plan, find_resource_plan, plan_outputs,
}
use pulumi_terraform_module.TfSandbox.Plan.Laws.{planned_change, new_plan-find, plan_outputs-find}
use pulumi_terraform_module.TfSandbox.State.{StateValues, make_state, new_state, state_outputs}
use pulumi_terraform_module.TfSandbox.State.Laws.{state_outputs-find, state_outputs_total}

-- Strings only, which is all that the documents below hold.
abbrev pub new_value : Json → PropertyValue
new_value (Json.string s) = string s
new_value _ = Value.null

abbrev pub sensitive : Json
sensitive = Json.object (Json.member "password" (Json.bool true) Json.end)

abbrev pub unmarshal : String → Option Json
unmarshal text = some sensitive

abbrev pub database : StateResource
database = record {
  address = "db.main";
  type_name = "db";
  is_data = false;
  attribute_values =
      Json.member "password" (Json.string "x") (Json.member "port" (Json.string "1") Json.end);
  sensitive_values = some "{\"password\":true}";
}

abbrev pub image : StateResource
image = record {
  address = "data.image.base";
  type_name = "image";
  is_data = true;
  attribute_values = Json.end;
  sensitive_values = none;
}

abbrev pub root : StateModule
root =
    make_module (image ∷ []) (child (make_module (database ∷ []) ChildModules.end) ChildModules.end)

lookup-new_state_resources_example :
    lookup "db.main" (new_state_resources (some root)) ≡ some database
unfolding all_resources
lookup-new_state_resources_example = lookup-new_state_resources root "db.main"

abbrev hidden : PropertyMap
hidden = entry "port" (string "1") (entry "password" (secret (string "x")) Value.end)

from_state_run : from_state new_value unmarshal database ≡ ok hidden
unfolding from_state
from_state_run = refl

sensitive_nodup : NodupMembers sensitive
unfolding NodupMembers Json.find
sensitive_nodup = (refl, tt, tt)

sensitive_marked : is_marked ("password" ∷ []) sensitive ≡ true
unfolding is_marked
sensitive_marked = refl

from_state-sensitive_example :
    at_path ("password" ∷ []) (object hidden)
    ≡ make_secret_conservative (
        at_path
          ("password" ∷ [])
          (object (from_attribute_values new_value database.attribute_values)))
from_state-sensitive_example =
    from_state-sensitive new_value unmarshal database "{\"password\":true}" sensitive
      ("password" ∷ []) sensitive_nodup refl refl sensitive_marked from_state_run

abbrev pub creating : Actions
creating = record {
  no_op = false;
  update = false;
  create_before_destroy = false;
  destroy_before_create = false;
  create = true;
  read = false;
  delete = false;
  forget = false;
}

abbrev pub database_change : ResourceChange
database_change = record {
  address = "db.main";
  type_name = "db";
  is_data = false;
  change = some (record {
    actions = creating;
    before = Json.null;
    after = Json.null;
    after_unknown = Json.null;
    before_sensitive = Json.null;
    after_sensitive = Json.null;
  });
}

abbrev output_change : Json → Json → Change
output_change after after_unknown = record {
  actions = creating;
  before = Json.null;
  after = after;
  after_unknown = after_unknown;
  before_sensitive = Json.null;
  after_sensitive = Json.null;
}

abbrev url : Change
url = output_change (Json.string "u") (Json.bool false)

abbrev url_is_secret : Change
url_is_secret = output_change (Json.bool true) (Json.bool false)

abbrev pub raw : RawPlan
raw = record {
  planned_values = some root;
  resource_drift = [];
  resource_changes = database_change ∷ [];
  output_changes = ("url", url) ∷ ("internal_output_is_secret_url", url_is_secret) ∷ [];
}

abbrev pub plan : Plan
plan = record {
  raw_plan = raw;
  by_address =
      (
        "db.main",
        record { resource_change = database_change; planned_state = some database; drift = false },
      )
      ∷ [];
  has_drift = false;
}

pub new_plan_run : new_plan raw ≡ ok plan
unfolding new_plan
new_plan_run = refl

new_plan-find_example :
    (false ≡ false)
    × (find_resource_plan plan "db.main"
        ≡ planned_change (new_state_resources (some root)) false "db.main" (some database_change))
new_plan-find_example = new_plan-find raw "db.main" new_plan_run

changes_nodup : NodupKeys raw.output_changes
unfolding lookup
changes_nodup = (refl, (refl, tt))

plan_outputs_run : plan_outputs new_value plan ≡ ok (entry "url" (secret (string "u")) Value.end)
unfolding plan_outputs
plan_outputs_run = refl

plan_outputs-find_example :
    Value.find "url" (entry "url" (secret (string "u")) Value.end) ≡ some (secret (string "u"))
unfolding lookup make_secret_conservative
plan_outputs-find_example =
    plan_outputs-find new_value plan "url" url changes_nodup refl refl plan_outputs_run

abbrev pub values : StateValues
values = record {
  root_module = some root;
  outputs = ("url", Json.string "u") ∷ ("internal_output_is_secret_url", Json.bool true) ∷ [];
}

outputs_nodup : NodupKeys values.outputs
unfolding lookup
outputs_nodup = (refl, (refl, tt))

state_outputs_run :
    state_outputs new_value (new_state (make_state (some values)))
    ≡ ok (entry "url" (secret (string "u")) Value.end)
unfolding state_outputs new_state
state_outputs_run = refl

state_outputs-find_example :
    Value.find "url" (entry "url" (secret (string "u")) Value.end) ≡ some (secret (string "u"))
unfolding lookup make_secret_conservative
state_outputs-find_example =
    state_outputs-find new_value values "url" (Json.string "u") outputs_nodup refl refl
      state_outputs_run

flag_of_url :
    (k : String) (o : Json)
    → lookup k values.outputs ≡ some o
    → is_internal_output_resource k ≡ false
    → (flag : Json) × (lookup (is_secret_key k) values.outputs ≡ some flag)
unfolding lookup
flag_of_url k o has outer = elim (Bool-cases ("url" == k)) [
  | inl here ↦ (Json.bool true, rw (← (eq_iff "url" k).0 here) refl)
  | inr there ↦ elim (Bool-cases ("internal_output_is_secret_url" == k)) [
    | inl here ↦ cc (rw (← (eq_iff "internal_output_is_secret_url" k).0 here) at outer)
    | inr not_there ↦ cc (rw (there, lookup, not_there) at has)
  ]
]

state_outputs_total_example :
    (m : PropertyMap) × (state_outputs new_value (new_state (make_state (some values))) ≡ ok m)
state_outputs_total_example = state_outputs_total new_value values outputs_nodup flag_of_url
