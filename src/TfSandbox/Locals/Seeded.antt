-- ===== src/TfSandbox/Locals/Seeded.antt =====
-- What a text of the seed file stands for, and that `decode` writes one that stands for the value.
use pulumi_terraform_module.Prelude.{ℕ, ◌≡◌, String, Bool, true, false, none, some, List}
use pulumi_terraform_module.Prelude.Outcome.{Outcome, ok, ◌>>=◌}
use pulumi_terraform_module.Prelude.Dict.{Dict, lookup}
use pulumi_terraform_module.Pulumi.Json.{Json, Items, Members}
use pulumi_terraform_module.Pulumi.Value.{
  PropertyValue, PropertyMap, Values, make_output, computed, secret, output,
}
use pulumi_terraform_module.TfSandbox.Locals.{
  Sdk, Locals, Callback, Mapper, sensitive_local, unknown_proxy_reference,
}

-- The texts of the file that stand for a value, given the locals of the file. A secret stands there
-- only as a reference to a local, marked as sensitive, and an unknown value as a reference to the proxy.
mutual
  pub data Seeded (sdk : Sdk) (entries : Dict Json) : PropertyValue → Json → Type 0 where
    null : Seeded sdk entries PropertyValue.null Json.null
    bool : {b : Bool} → Seeded sdk entries (PropertyValue.bool b) (Json.bool b)
    number :
        {bits : ℕ}
        → Seeded sdk entries (PropertyValue.number bits) (Json.number (sdk.number_text bits))
    string : {s : String} → Seeded sdk entries (PropertyValue.string s) (Json.string s)
    array :
        {xs : Values} {js : Items}
        → SeededItems sdk entries xs js
        → Seeded sdk entries (PropertyValue.array xs) (Json.array js)
    object :
        {m : PropertyMap} {js : Members}
        → SeededFields sdk entries m js
        → Seeded sdk entries (PropertyValue.object m) (Json.object js)
    unknown :
        {v : PropertyValue} → Seeded sdk entries (computed v) (Json.string unknown_proxy_reference)
    unknown_output :
        {v : PropertyValue} {s : Bool} {deps : List String}
        → Seeded sdk entries
            (output (make_output v false s deps))
            (Json.string unknown_proxy_reference)
    hidden :
        {v : PropertyValue} {j : Json} (key : String)
        → lookup key entries ≡ some j
        → Seeded sdk entries v j
        → Seeded sdk entries (secret v) (Json.string (sensitive_local key))
    hidden_output :
        {v : PropertyValue} {j : Json} {deps : List String} (key : String)
        → lookup key entries ≡ some j
        → Seeded sdk entries v j
        → Seeded sdk entries
            (output (make_output v true true deps))
            (Json.string (sensitive_local key))
    known_output :
        {v : PropertyValue} {j : Json} {deps : List String}
        → Seeded sdk entries v j
        → Seeded sdk entries (output (make_output v true false deps)) j

  pub data SeededItems (sdk : Sdk) (entries : Dict Json) : Values → Items → Type 0 where
    nil : SeededItems sdk entries Values.nil Items.nil
    cons :
        {x : PropertyValue} {j : Json} {xs : Values} {js : Items}
        → Seeded sdk entries x j
        → SeededItems sdk entries xs js
        → SeededItems sdk entries (Values.cons x xs) (Items.cons j js)

  pub data SeededFields (sdk : Sdk) (entries : Dict Json) : PropertyMap → Members → Type 0 where
    end : SeededFields sdk entries PropertyMap.end Members.end
    entry :
        {k : String} {v : PropertyValue} {j : Json} {m : PropertyMap} {js : Members}
        → Seeded sdk entries v j
        → SeededFields sdk entries m js
        → SeededFields sdk entries (PropertyMap.entry k v m) (Members.member k j js)

-- `MapRepl` on the elements of an array and on the entries of a map.
abbrev pub map_items : Mapper → Values → Locals → Outcome (Items × Locals)
map_items each Values.nil l = ok (Items.nil, l)
map_items each (Values.cons x xs) l =
    each x l >>= λ r. map_items each xs (r.1) >>= λ rs. ok (Items.cons (r.0) (rs.0), rs.1)

abbrev pub map_fields : Mapper → PropertyMap → Locals → Outcome (Members × Locals)
map_fields each PropertyMap.end l = ok (Members.end, l)
map_fields each (PropertyMap.entry k v m) l =
    each v l >>= λ r. map_fields each m (r.1) >>= λ rs. ok (Members.member k (r.0) (rs.0), rs.1)

-- What the code relies on of `MapRepl`: a replacement is taken as it is, and where there is none the
-- value is written as JSON with its elements mapped, in their order.
pub record IsMapRepl (sdk : Sdk) : Type 0 where
  pub replaced :
      (f : Callback) (v : PropertyValue) (l l' : Locals) (j : Json)
      → f v l ≡ ok (some j, l')
      → sdk.map_repl f v l ≡ ok (j, l')
  pub at_null :
      (f : Callback) (l l' : Locals)
      → f PropertyValue.null l ≡ ok (none, l')
      → sdk.map_repl f PropertyValue.null l ≡ ok (Json.null, l')
  pub at_bool :
      (f : Callback) (b : Bool) (l l' : Locals)
      → f (PropertyValue.bool b) l ≡ ok (none, l')
      → sdk.map_repl f (PropertyValue.bool b) l ≡ ok (Json.bool b, l')
  pub at_number :
      (f : Callback) (n : ℕ) (l l' : Locals)
      → f (PropertyValue.number n) l ≡ ok (none, l')
      → sdk.map_repl f (PropertyValue.number n) l ≡ ok (Json.number (sdk.number_text n), l')
  pub at_string :
      (f : Callback) (s : String) (l l' : Locals)
      → f (PropertyValue.string s) l ≡ ok (none, l')
      → sdk.map_repl f (PropertyValue.string s) l ≡ ok (Json.string s, l')
  pub at_array :
      (f : Callback) (xs : Values) (l l' : Locals)
      → f (PropertyValue.array xs) l ≡ ok (none, l')
      → sdk.map_repl f (PropertyValue.array xs) l
        ≡ (map_items (sdk.map_repl f) xs l' >>= λ r. ok (Json.array (r.0), r.1))
  pub at_object :
      (f : Callback) (m : PropertyMap) (l l' : Locals)
      → f (PropertyValue.object m) l ≡ ok (none, l')
      → sdk.map_repl f (PropertyValue.object m) l
        ≡ (map_fields (sdk.map_repl f) m l' >>= λ r. ok (Json.object (r.0), r.1))
  pub at_fields :
      (f : Callback) (m : PropertyMap) (l : Locals)
      → sdk.map_repl_fields f m l ≡ map_fields (sdk.map_repl f) m l
