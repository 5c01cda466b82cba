-- ===== src/Tests/Operations.antt =====
-- The handlers in a concrete environment.
use pulumi_terraform_module.Prelude.{
  String, ◌≡◌, refl, sym, some-injective, eq_iff, Bool-cases, inl, inr, Bool, true, false, not,
  ◌==◌, none, some, [], ◌∷◌, map,
}
use pulumi_terraform_module.Prelude.Outcome.{ok}
use pulumi_terraform_module.Prelude.Dict
use pulumi_terraform_module.Prelude.Dict.{Dict, lookup}
use pulumi_terraform_module.Pulumi.Value
use pulumi_terraform_module.Pulumi.Value.{PropertyMap, string, secret, entry, find}
use pulumi_terraform_module.TfSandbox.Plan.{RawPlan, new_plan}
use pulumi_terraform_module.TfSandbox.State.{make_state, new_state}
use pulumi_terraform_module.TfSandbox.Files.{
  missing, holds, Disk, pull_state_and_lock_file, push_state_and_lock_file,
}
use pulumi_terraform_module.TfSandbox.Files.Laws.{pull-push_state_and_lock_file}
use pulumi_terraform_module.ModProvider.Meta.{Recorded, get_state, outputs}
use pulumi_terraform_module.ModProvider.Meta.Laws.{get_state-outputs}
use pulumi_terraform_module.ModProvider.Remap.{rename_inputs, rename_providers}
use pulumi_terraform_module.ModProvider.Remap.Laws.{Renames, find-rename_inputs}
use pulumi_terraform_module.ModProvider.Run.{seeded, pushed, initialized, ◌>>=◌}
use pulumi_terraform_module.ModProvider.Run.Laws.{all}
use pulumi_terraform_module.ModProvider.Module.{Env, ModuleSchema, prep_sandbox, output_spec}
use pulumi_terraform_module.ModProvider.Module.Prepared.{recorded_in, events-prep_sandbox}
use pulumi_terraform_module.ModProvider.Handlers.{
  Request, done, Autonaming, propose, check, create_module, update_module, delete_module,
  read_module, diff,
}
use pulumi_terraform_module.ModProvider.Handlers.Leases.{
  is_bracketed, is_bracketed-handlers, is_harmless, all-is_harmless_preview,
}
use pulumi_terraform_module.ModProvider.Handlers.Results.{create_module-done, update_module-done}
use pulumi_terraform_module.ModProvider.Handlers.Decisions.{lookup-check, Unchanged, diff-Unchanged}
use pulumi_terraform_module.Tests.Documents.{new_value, unmarshal, values}

abbrev disk : Disk
disk = record { state = holds "{}"; lock = missing; state_writable = true; lock_writable = true }

pull-push_state_and_lock_file_example :
    ((push_state_and_lock_file "{1}" (some "l") disk).1 ≡ ok tt)
    × (pull_state_and_lock_file ((push_state_and_lock_file "{1}" (some "l") disk).0)
        ≡ ok ("{1}", some "l"))
pull-push_state_and_lock_file_example =
    pull-push_state_and_lock_file "{1}" (some "l") disk refl refl

pull_run : pull_state_and_lock_file disk ≡ ok ("{}", none)
unfolding pull_state_and_lock_file
pull_run = refl

abbrev recorded_outputs : PropertyMap
recorded_outputs = entry "url" (secret (string "u")) (
    entry "__state" (secret (string "{}"))
      (entry "__lock" (string "") (entry "__moduleVersion" (string "2.0.0") Value.end)))

outputs_run :
    outputs new_value disk (new_state (make_state (some values))) "2.0.0" ≡ ok recorded_outputs
unfolding outputs new_state
outputs_run = refl

abbrev recorded : Recorded
recorded = record { state = "{}"; lock = some ""; version = "2.0.0" }

get_state-outputs_example : get_state recorded_outputs ≡ ok recorded
get_state-outputs_example =
    get_state-outputs new_value disk (new_state (make_state (some values))) "2.0.0" "{}" none
      pull_run outputs_run

abbrev empty_plan : RawPlan
empty_plan = record {
  planned_values = none;
  resource_drift = [];
  resource_changes = [];
  output_changes = [];
}

abbrev env : Env PropertyMap
env = record {
  new_value = new_value;
  unmarshal = unmarshal;
  marshal_properties = λ m. some m;
  op_name = λ op. "op";
  deep_equals = λ a b. true;
  acquire = ok tt;
  pick_module_runtime = ok tt;
  create_tf_file = ok tt;
  input_order = λ m. "input_value" ∷ [];
  provider_order = λ m. [];
  output_order = λ m. "url" ∷ [];
  disk = disk;
  disk_after = disk;
  init_json = λ upgrade. ok tt;
  plan_no_refresh_json = ok empty_plan;
  plan_refresh_only_json = ok empty_plan;
  apply_json = none;
  refresh_json = ok tt;
  destroy_json = none;
  show = ok (make_state (some values));
  show_before = ok (make_state (some values));
  show_after = ok (make_state none);
  publish_view_steps = ok tt;
}

abbrev mappings : Dict String
mappings = ("input_value", "input-value") ∷ []

abbrev schema : ModuleSchema
schema = record {
  outputs = "url" ∷ [];
  input_field_mappings = mappings;
  output_field_mappings = [];
  provider_field_mappings = [];
}

abbrev inputs : PropertyMap
inputs = entry "input_value" (string "i") Value.end

abbrev request : Bool → Request
request preview = record {
  has_inputs = true;
  inputs = ok inputs;
  old_inputs = ok inputs;
  old_outputs = ok recorded_outputs;
  preview = preview;
}

only_input_value :
    (j u : String) → lookup j mappings ≡ some u → (j ≡ "input_value") × (u ≡ "input-value")
unfolding lookup
only_input_value j u h = elim (Bool-cases ("input_value" == j)) [
  | inl e ↦ (
    sym ((eq_iff "input_value" j).0 e),
    sym (some-injective "input-value" u (rw (e, lookup) at h)),
  )
  | inr e ↦ cc (rw (e, lookup) at h)
]

input_value_moves : Renames mappings "input_value" "input-value"
unfolding lookup
input_value_moves = record {
  maps = refl;
  alone = λ j h. (only_input_value j "input-value" h).0;
  apart = λ j u h. rw ((only_input_value j u h).1) refl;
}

find-rename_inputs_example :
    (find "input_value" (rename_inputs mappings ("input_value" ∷ []) inputs) ≡ none)
    × (find "input-value" (rename_inputs mappings ("input_value" ∷ []) inputs) ≡ some (string "i"))
unfolding find
find-rename_inputs_example =
    find-rename_inputs mappings "input_value" "input-value" input_value_moves ("input_value" ∷ [])
      inputs refl

recorded_run : recorded_in (some recorded_outputs) ≡ ok (some recorded)
unfolding get_state
recorded_run = refl

prep_run :
    (prep_sandbox env schema inputs (some recorded_outputs) "3.0.0" []).result
    ≡ ok (entry "input-value" (string "i") Value.end)
unfolding prep_sandbox ◌>>=◌
prep_run = refl

events-prep_sandbox_example :
    ((prep_sandbox env schema inputs (some recorded_outputs) "3.0.0" []).events
      ≡ seeded
          (rename_inputs mappings ("input_value" ∷ []) inputs)
          (map (output_spec []) ("url" ∷ []))
          []
        ∷ pushed recorded
        ∷ initialized (not ("2.0.0" == "3.0.0"))
        ∷ [])
    × (entry "input-value" (string "i") Value.end
        ≡ rename_inputs mappings ("input_value" ∷ []) inputs)
unfolding rename_providers
events-prep_sandbox_example =
    events-prep_sandbox env schema inputs (some recorded_outputs) "3.0.0" [] (some recorded)
      recorded_run prep_run

is_bracketed-handlers_example :
    (is_bracketed ((create_module env schema "pkg" "2.0.0" [] (request false)).events) ≡ true)
    × (is_bracketed ((update_module env schema "pkg" "2.0.0" [] (request false)).events) ≡ true)
    × (is_bracketed ((delete_module env schema "pkg" "2.0.0" [] (request false)).events) ≡ true)
    × (is_bracketed ((read_module env schema "pkg" "2.0.0" [] (request false)).events) ≡ true)
is_bracketed-handlers_example = is_bracketed-handlers env schema "pkg" "2.0.0" [] (request false)

all-is_harmless_preview_example :
    (all is_harmless ((create_module env schema "pkg" "2.0.0" [] (request true)).events) ≡ true)
    × (all is_harmless ((update_module env schema "pkg" "2.0.0" [] (request true)).events) ≡ true)
all-is_harmless_preview_example =
    all-is_harmless_preview env schema "pkg" "2.0.0" [] (request true) refl

create_run :
    (create_module env schema "pkg" "2.0.0" [] (request false)).result ≡ ok (done recorded_outputs)
unfolding create_module ◌>>=◌ new_plan Dict.insert
create_run = refl

create_module-done_example :
    (env.apply_json ≡ none)
    × (m : PropertyMap) × (env.marshal_properties m ≡ some recorded_outputs)
    × (get_state m ≡ ok recorded)
create_module-done_example =
    create_module-done env schema "pkg" "2.0.0" "{}" none [] (request false) refl refl pull_run
      create_run

update_run :
    (update_module env schema "pkg" "2.0.0" [] (request false)).result ≡ ok (done recorded_outputs)
unfolding update_module ◌>>=◌ new_plan Dict.insert
update_run = refl

update_module-done_example :
    (env.apply_json ≡ none)
    × (m : PropertyMap) × (env.marshal_properties m ≡ some recorded_outputs)
    × (get_state m ≡ ok recorded)
update_module-done_example =
    update_module-done env schema "pkg" "2.0.0" "{}" none [] (request false) refl refl pull_run
      update_run

diff_run : (diff env schema "2.0.0" [] (request false)).result ≡ ok false
unfolding diff ◌>>=◌ new_plan Dict.insert
diff_run = refl

diff-Unchanged_example : Unchanged env (request false)
diff-Unchanged_example = diff-Unchanged env schema "2.0.0" [] (request false) diff_run

abbrev proposal : Autonaming
proposal = record { mode = propose; proposed_name = "web-1" }

abbrev news : Dict String
news = ("size", "2") ∷ []

abbrev inputs_with_name : Dict String
inputs_with_name = ("size", "2") ∷ ("name", "web-1") ∷ []

check_run : check (λ s. s) true (some proposal) (some "web-abc") [] news ≡ ok inputs_with_name
unfolding check
check_run = refl

lookup-check_example : lookup "name" inputs_with_name ≡ some "web-1"
unfolding lookup
lookup-check_example =
    lookup-check (λ s. s) true (some proposal) (some "web-abc") [] news "name" check_run
