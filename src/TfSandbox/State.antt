-- ===== src/TfSandbox/State.antt =====
-- pkg/tfsandbox/details.go: `ResourceState` and `State`.
use pulumi_terraform_module.Prelude.{String, Bool, Option, none, some, [], ◌∷◌}
use pulumi_terraform_module.Prelude.Outcome.{Outcome, ok, panic, ◌>>=◌}
use pulumi_terraform_module.Prelude.Dict.{Dict, lookup}
use pulumi_terraform_module.Pulumi.Json.{Json}
use pulumi_terraform_module.Pulumi.Value.{PropertyValue, PropertyMap}
use pulumi_terraform_module.TfSandbox.Secrets.{make_secret_conservative}
use pulumi_terraform_module.TfSandbox.Resources.{
  StateResource, StateModule, StateResources, new_state_resources, from_state,
}
use pulumi_terraform_module.TfSandbox.Outputs.{is_secret_key, bool_or_false, mark, output_loop}
pub mod Laws

-- `tfjson.StateValues`: the root module and the values of the outputs
pub record StateValues : Type 0 where
  pub root_module : Option StateModule
  pub outputs : Dict Json

-- `*tfjson.State`: nil, or a state whose `Values` may be nil
pub data RawState : Type 0 where
  nil : RawState
  make_state : Option StateValues → RawState

pub record State : Type 0 where
  pub raw_state : RawState
  pub by_address : StateResources

abbrev pub root_module : RawState → Option StateModule
root_module nil = none
root_module (make_state none) = none
root_module (make_state (some v)) = v.root_module

-- `NewState`
unfoldable pub new_state : RawState → State
unfolding new_state_resources
new_state raw = record { raw_state = raw; by_address = new_state_resources (root_module raw) }

-- `FindResourceState`
unfoldable pub find_resource_state : State → String → Option StateResource
unfolding lookup
find_resource_state s addr = lookup addr s.by_address

-- `s.rawState.Values.Outputs`, a chain of pointers
unfoldable pub raw_outputs : State → Outcome (Dict Json)
raw_outputs s = elim s.raw_state [
  | nil ↦ panic
  | make_state values ↦ elim values [ none ↦ panic | some v ↦ ok v.outputs ]
]

-- `State.outputIsSecret`
unfoldable pub state_output_is_secret : Dict Json → String → Outcome Bool
unfolding lookup
state_output_is_secret outputs name = elim (lookup (is_secret_key name) outputs) [
  | none ↦ panic
  | some flag ↦ ok (bool_or_false flag)
]

module _ (new_value : Json → PropertyValue) where
  unfoldable pub state_output_value : Dict Json → String → Json → Outcome PropertyValue
  unfolding state_output_is_secret make_secret_conservative
  state_output_value outputs name v = do
    secret ← state_output_is_secret outputs name
    ok (mark secret (new_value v))

  -- `State.Outputs`
  unfoldable pub state_outputs : State → Outcome PropertyMap
  unfolding raw_outputs output_loop state_output_value
  state_outputs s = do
    outputs ← raw_outputs s
    output_loop (state_output_value outputs) outputs PropertyMap.end

  -- `ResourceState.AttributeValues`
  unfoldable pub attribute_values : (String → Option Json) → StateResource → Outcome PropertyMap
  unfolding from_state
  attribute_values unmarshal r = from_state new_value unmarshal r
