-- ===== src/TfSandbox/State/Laws.antt =====
-- What a state shows of its outputs.
use pulumi_terraform_module.Prelude.{
  Option-cases, inl, inr, String, ◌≡◌, refl, Bool, true, false, none, some, if◌then◌else◌, Option,
  starts_with, ◌<>◌, sym, ◌∙◌,
}
use pulumi_terraform_module.Prelude.Outcome.{ok, panic, ok-injective}
use pulumi_terraform_module.Prelude.Dict.{Dict, lookup, NodupKeys}
use pulumi_terraform_module.Pulumi.Json.{Json}
use pulumi_terraform_module.Pulumi.Value
use pulumi_terraform_module.Pulumi.Value.{PropertyValue, PropertyMap, end}
use pulumi_terraform_module.TfSandbox.Secrets.{make_secret_conservative}
use pulumi_terraform_module.TfSandbox.Resources.{StateResource, new_state_resources}
use pulumi_terraform_module.TfSandbox.Resources.Laws.{
  all_resources, address-last_at, lookup-new_state_resources,
}
use pulumi_terraform_module.TfSandbox.Keys.Laws.{encode}
use pulumi_terraform_module.TfSandbox.Outputs.{
  is_secret_key, is_internal_output_resource, mark, bool_or_false,
}
use pulumi_terraform_module.TfSandbox.Outputs.Laws.{find-output_loop, output_loop_total}
use pulumi_terraform_module.TfSandbox.State.{
  StateValues, RawState, root_module, nil, make_state, new_state, find_resource_state,
  state_output_is_secret, state_output_value, state_outputs,
}

abbrev pub has_values : RawState → Bool
has_values (make_state (some v)) = true
has_values _ = false

abbrev pub is_true : Option Json → Bool
is_true (some (Json.bool b)) = b
is_true _ = false

marked :
    (flag : Json) (v : PropertyValue)
    → mark (bool_or_false flag) v ≡ (if is_true (some flag) then make_secret_conservative v else v)
marked (Json.bool b) v = refl
marked _ v = refl

module _ (new_value : Json → PropertyValue) where
  -- What an output is shown as, when these are all outputs.
  abbrev pub shown : Dict Json → String → Json → PropertyValue
  shown outputs k o =
      if is_true (lookup ("internal_output_is_secret_" <> k) outputs)
      then make_secret_conservative (new_value o)
      else new_value o

  state_output_value-eq-ok :
      (outputs : Dict Json) (k : String) (o : Json) (v : PropertyValue)
      → state_output_value new_value outputs k o ≡ ok v
      → v ≡ shown outputs k o
  unfolding state_output_value state_output_is_secret
  state_output_value-eq-ok outputs k o v h =
      elim (Option-cases (lookup (is_secret_key k) outputs)) [
        | inl e ↦ cc (rw (e, state_output_value, state_output_is_secret) at h)
        | inr (flag, e) ↦ rw e (
            sym (ok-injective _ v (rw (e, state_output_value, state_output_is_secret) at h))
            ∙ marked flag (new_value o))
      ]

  -- `State.Outputs` shows every output of the module under its Pulumi key, hidden as a secret exactly
  -- when the internal output `internal_output_is_secret_<name>` is `true`, and shows no output whose
  -- name begins with that prefix. (No output is named `id_`.)
  pub state_outputs-find :
      (values : StateValues) (k : String) (o : Json) {m : PropertyMap}
      → NodupKeys values.outputs
      → lookup "id_" values.outputs ≡ none
      → lookup k values.outputs ≡ some o
      → state_outputs new_value (new_state (make_state (some values))) ≡ ok m
      → Value.find (encode k) m ≡ (
          if starts_with k "internal_output_is_secret_"
          then none
          else some (
              if is_true (lookup ("internal_output_is_secret_" <> k) values.outputs)
              then make_secret_conservative (new_value o)
              else new_value o))
  unfolding state_outputs new_state
  state_outputs-find values k o u reserved has h =
      find-output_loop (state_output_value new_value values.outputs) values.outputs k o _ u reserved
        has (λ v made. state_output_value-eq-ok values.outputs k o v made) h

  -- `State.Outputs` returns, if the state has values and each output of the module its internal output.
  pub state_outputs_total :
      (values : StateValues)
      → NodupKeys values.outputs
      → ((k : String) (o : Json)
          → lookup k values.outputs ≡ some o
          → is_internal_output_resource k ≡ false
          → (flag : Json) × (lookup (is_secret_key k) values.outputs ≡ some flag))
      → (m : PropertyMap) × (state_outputs new_value (new_state (make_state (some values))) ≡ ok m)
  unfolding state_outputs new_state
  state_outputs_total values u flags =
      output_loop_total (state_output_value new_value values.outputs) values.outputs end u
        λ k o has outer.
          let (flag, flagged) = flags k o has outer in
          (
            mark (bool_or_false flag) (new_value o),
            rw (flagged, state_output_value, state_output_is_secret),
          )

-- `NewState` accepts a nil state and a state without values, and finds no resource in them;
-- `State.Outputs` panics on both.
pub state_outputs_no_values :
    (new_value : Json → PropertyValue) (raw : RawState) (a : String)
    → has_values raw ≡ false
    → (find_resource_state (new_state raw) a ≡ none)
      × (state_outputs new_value (new_state raw) ≡ panic)
unfolding state_outputs new_state find_resource_state
state_outputs_no_values new_value nil a h = (refl, refl)
state_outputs_no_values new_value (make_state none) a h = (refl, refl)
state_outputs_no_values new_value (make_state (some v)) a h = cc

-- In the state, a resource stands at its own address.
pub address-find_resource_state :
    (raw : RawState) (a : String) {r : StateResource}
    → find_resource_state (new_state raw) a ≡ some r
    → r.address ≡ a
unfolding new_state find_resource_state
address-find_resource_state raw a h = elim (Option-cases (root_module raw)) [
  | inl e ↦ cc (rw (e, new_state_resources) at h)
  | inr (m, e) ↦ address-last_at a (all_resources m) (rw (e, lookup-new_state_resources) at h)
]
