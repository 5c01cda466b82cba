-- ===== src/TfSandbox/Locals.antt =====
-- pkg/tfsandbox/tf_file.go: the values of the seed file. A secret is moved to the `locals` of the file,
-- and an unknown value is read from a proxy. `MapRepl` of the SDK is a parameter, and so are the texts
-- of numbers.
use pulumi_terraform_module.Prelude.{
  ℕ, zero, suc, ◌+◌, String, ◌<>◌, Bool, true, false, Option, none, some, List,
}
use pulumi_terraform_module.Prelude.Outcome.{Outcome, ok, err, panic, ◌>>=◌}
use pulumi_terraform_module.Prelude.Dict.{Dict, insert}
use pulumi_terraform_module.Pulumi.Json
use pulumi_terraform_module.Pulumi.Json.{Json, Items, Members}
use pulumi_terraform_module.Pulumi.Value
use pulumi_terraform_module.Pulumi.Value.{
  PropertyValue, PropertyMap, Values, Output, make_output, asset, archive, resource_reference,
  computed, secret, output, array, object,
}
pub mod Numbered
pub mod Seeded
pub mod Kept
pub mod Returns

-- `locals`
pub record Locals : Type 0 where
  pub entries : Dict Json
  pub counter : ℕ

-- A callback of `MapRepl`: the replacement, if there is one, and a call of `MapRepl` itself. Both change
-- the locals.
abbrev pub Callback : Type 0
Callback = PropertyValue → Locals → Outcome (Option Json × Locals)

abbrev pub Mapper : Type 0
Mapper = PropertyValue → Locals → Outcome (Json × Locals)

pub record Sdk : Type 0 where
  -- `PropertyValue.MapRepl(nil, _)` and `PropertyMap.MapRepl(nil, _)`
  pub map_repl : Callback → PropertyValue → Locals → Outcome (Json × Locals)
  pub map_repl_fields : Callback → PropertyMap → Locals → Outcome (Members × Locals)
  -- `%d`, and the text that a `float64` is written with
  pub decimal : ℕ → String
  pub number_text : ℕ → String

abbrev pub unknown_proxy_reference : String
unknown_proxy_reference = "${pulumiaux_unk.unknown_proxy.value}"

-- `fmt.Sprintf("${sensitive(local.%s)}", key)`
abbrev pub sensitive_local : String → String
sensitive_local key = "${sensitive(local." <> key <> ")}"

module _ (sdk : Sdk) where
  abbrev pub local_key : ℕ → String
  local_key n = "local" <> sdk.decimal n

  -- `createLocal`
  unfoldable pub create_local : Json → Locals → String × Locals
  create_local v l = (
    local_key (suc l.counter),
    record { entries = insert (local_key (suc l.counter)) v l.entries; counter = suc l.counter },
  )

  -- The value becomes a local, and a reference to it is the replacement.
  abbrev pub hide : Outcome (Json × Locals) → Outcome (Option Json × Locals)
  hide (ok (v, l)) =
      ok (some (Json.string (sensitive_local ((create_local v l).0))), (create_local v l).1)
  hide (err e) = err e
  hide panic = panic

  abbrev pub replace : Outcome (Json × Locals) → Outcome (Option Json × Locals)
  replace (ok (v, l)) = ok (some v, l)
  replace (err e) = err e
  replace panic = panic

  -- `decode`, on a bound for the depth of nested secrets and outputs
  unfoldable pub decode : ℕ → Callback
  unfolding create_local
  decode zero v l = panic
  decode (suc n) (asset a) l = panic
  decode (suc n) (archive a) l = panic
  decode (suc n) (resource_reference r) l = panic
  decode (suc n) (computed v) l = ok (some (Json.string unknown_proxy_reference), l)
  decode (suc n) (output (make_output v false s deps)) l =
      ok (some (Json.string unknown_proxy_reference), l)
  decode (suc n) (secret v) l = hide (sdk.map_repl (decode n) v l)
  decode (suc n) (output (make_output v true true deps)) l = hide (sdk.map_repl (decode n) v l)
  decode (suc n) (output (make_output v true false deps)) l = replace (sdk.map_repl (decode n) v l)
  decode (suc n) _ l = ok (none, l)

-- The number of secrets and outputs in a value, which bounds how deep they nest.
unfoldable mutual
  pub layers : PropertyValue → ℕ
  layers (array xs) = layers_of xs
  layers (object m) = layers_in m
  layers (secret v) = suc (layers v)
  layers (output o) = layers_out o
  layers _ = 0

  pub layers_of : Values → ℕ
  layers_of Values.nil = 0
  layers_of (Values.cons x xs) = layers x + layers_of xs

  pub layers_in : PropertyMap → ℕ
  layers_in PropertyMap.end = 0
  layers_in (PropertyMap.entry k v m) = layers v + layers_in m

  layers_out : Output → ℕ
  layers_out (make_output v known hides deps) = suc (layers v)

module _ (sdk : Sdk) where
  -- `m.MapRepl(nil, locals.decode)`
  unfoldable pub decode_fields : PropertyMap → Locals → Outcome (Members × Locals)
  unfolding decode layers
  decode_fields m l = sdk.map_repl_fields (decode sdk (suc (layers_in m))) m l
