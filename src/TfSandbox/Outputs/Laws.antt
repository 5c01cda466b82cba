-- ===== src/TfSandbox/Outputs/Laws.antt =====
-- What the loop over the raw outputs leaves in the property map.
use pulumi_terraform_module.Prelude.{
  String, ◌≡◌, ◌⊎◌, ◌∙◌, true, false, none, some, some-injective, [], ◌∷◌, ◌==◌, eq_iff, eq_refl,
  ap, if◌then◌else◌, arith, Bool-cases, Option-cases, refl, inl, inr,
}
use pulumi_terraform_module.Prelude.Outcome.{Outcome, ok, >>=-eq-ok}
use mathlib.Core.Bool.{false≢true}
use pulumi_terraform_module.Prelude.Dict.{Dict, lookup, NodupKeys}
use pulumi_terraform_module.Pulumi.Value
use pulumi_terraform_module.Pulumi.Value.{PropertyValue, PropertyMap, end, find-insert}
use pulumi_terraform_module.TfSandbox.Keys.{pulumi_top_level_key}
use pulumi_terraform_module.TfSandbox.Keys.Laws.{encode, top_level_key_lem, encode-ne}
use pulumi_terraform_module.TfSandbox.Outputs.{is_internal_output_resource, output_loop}

module _ {ℓ} {O : Type ℓ} (value : String → O → Outcome PropertyValue) where
  -- One round for an output that is not internal.
  data LoopStep (name : String) (o : O) (rest : Dict O) (m m' : PropertyMap) : Type 0 where
    round :
        (key : String) (v : PropertyValue)
        → pulumi_top_level_key name ≡ ok key
        → value name o ≡ ok v
        → output_loop value rest (Value.insert key v m) ≡ ok m'
        → LoopStep name o rest m m'

  output_loop-cons :
      (name : String) (o : O) (rest : Dict O) (m : PropertyMap) {m' : PropertyMap}
      → is_internal_output_resource name ≡ false
      → output_loop value ((name, o) ∷ rest) m ≡ ok m'
      → LoopStep name o rest m m'
  unfolding output_loop
  output_loop-cons name o rest m outer h =
      let h' = rw (outer, output_loop) at h in
      let (key, p, h'') = >>=-eq-ok (pulumi_top_level_key name) _ h' in
      let (v, q, e) = >>=-eq-ok (value name o) _ h'' in round key v p q e

  -- The key of an output that is not among the entries keeps its value.
  output_loop_absent :
      (entries : Dict O) (k : String) (m : PropertyMap) {m' : PropertyMap}
      → lookup k entries ≡ none
      → lookup "id_" entries ≡ none
      → (k == "id_") ≡ false
      → output_loop value entries m ≡ ok m'
      → Value.find (encode k) m' ≡ Value.find (encode k) m
  unfolding output_loop lookup
  output_loop_absent [] k m a b c p = ground arith
  output_loop_absent ((j, o) ∷ rest) k m a b c p =
      elim (Bool-cases (is_internal_output_resource j)) [
        | inl internal ↦
            output_loop_absent rest k m (ground arith) (ground arith) c
              (rw (internal, output_loop) at p)
        | inr outer ↦ elim (output_loop-cons j o rest m outer p) [
          | round key v encodes made loop ↦
              output_loop_absent rest k (Value.insert key v m) (ground arith) (ground arith) c loop
              ∙ rw find-insert (
                  ground
                    (arith, top_level_key_lem j, encode-ne j k (ground arith) (ground arith) c))
        ]
      ]

  round_here :
      (j : String) (w : O) (rest : Dict O) (m : PropertyMap) {m' : PropertyMap}
      → lookup j rest ≡ none
      → lookup "id_" rest ≡ none
      → (j == "id_") ≡ false
      → LoopStep j w rest m m'
      → (v : PropertyValue) × (value j w ≡ ok v) × (Value.find (encode j) m' ≡ some v)
  round_here j w rest m fresh b c (round key v encodes made loop) = (
    v,
    made,
    output_loop_absent rest j (Value.insert key v m) fresh b c loop
        ∙ rw find-insert (ground (arith, top_level_key_lem j, eq_iff key (encode j))),
  )

  -- Every output that is not internal is in the result, with the value that its round computes.
  pub output_loop-find :
      (entries : Dict O) (k : String) (o : O) (m : PropertyMap) {m' : PropertyMap}
      → NodupKeys entries
      → lookup "id_" entries ≡ none
      → is_internal_output_resource k ≡ false
      → lookup k entries ≡ some o
      → output_loop value entries m ≡ ok m'
      → (v : PropertyValue) × (value k o ≡ ok v) × (Value.find (encode k) m' ≡ some v)
  unfolding output_loop lookup
  output_loop-find [] k o m u b c has p = cc
  output_loop-find ((j, w) ∷ rest) k o m u b c has p =
      elim (Bool-cases (is_internal_output_resource j)) [
        | inl internal ↦
            output_loop-find rest k o m u.1 (ground arith) c (ground (arith, eq_iff j k))
              (rw (internal, output_loop) at p)
        | inr outer ↦ elim (Bool-cases (j == k)) [
          | inl here ↦
              rw ((eq_iff j k).0 here, some-injective w o (ground arith)) at
                (round_here j w rest m u.0 (ground arith) (ground arith)
                  (output_loop-cons j w rest m outer p))
          | inr there ↦ elim (output_loop-cons j w rest m outer p) [
            | round key v encodes made loop ↦
                output_loop-find rest k o (Value.insert key v m) u.1 (ground arith) c (ground arith)
                  loop
          ]
        ]
      ]

  -- Where an entry of the result comes from.
  pub record Origin (e : String) (v : PropertyValue) (entries : Dict O) : Type ℓ where
    pub name : String
    pub raw : O
    pub is_output : lookup name entries ≡ some raw
    pub is_not_internal : is_internal_output_resource name ≡ false
    pub encoded : encode name ≡ e
    pub made : value name raw ≡ ok v

  source-cons :
      (e : String) (v : PropertyValue) (j : String) (w : O) (rest : Dict O)
      → lookup j rest ≡ none
      → Origin e v rest
      → Origin e v ((j, w) ∷ rest)
  unfolding lookup
  source-cons e v j w rest fresh s = record {
    name = s.name;
    raw = s.raw;
    is_output = ground (arith, eq_iff j s.name, s.is_output);
    is_not_internal = s.is_not_internal;
    encoded = s.encoded;
    made = s.made;
  }

  source_here :
      (e : String) (v : PropertyValue) (j : String) (w : O) (rest : Dict O) (m : PropertyMap)
      → is_internal_output_resource j ≡ false
      → (key : String) (x : PropertyValue) → pulumi_top_level_key j ≡ ok key
      → value j w ≡ ok x
      → Value.find e (Value.insert key x m) ≡ some v
      → (Value.find e m ≡ some v) ⊎ Origin e v ((j, w) ∷ rest)
  unfolding lookup
  source_here e v j w rest m outer key x encodes made h = elim (Bool-cases (key == e)) [
    | inl here ↦ inr (record {
      name = j;
      raw = w;
      is_output = ground (arith, eq_refl j);
      is_not_internal = outer;
      encoded = ground (arith, top_level_key_lem j, eq_iff key e);
      made = ground (arith, find-insert key e x m);
    })
    | inr there ↦ inl (ground (arith, find-insert key e x m))
  ]

  source_lift :
      (e : String) (v : PropertyValue) (j : String) (w : O) (rest : Dict O) {P : Type 0}
      → lookup j rest ≡ none
      → P ⊎ Origin e v rest
      → P ⊎ Origin e v ((j, w) ∷ rest)
  source_lift e v j w rest fresh (inl old) = inl old
  source_lift e v j w rest fresh (inr s) = inr (source-cons e v j w rest fresh s)

  -- The result holds nothing but outputs that are not internal.
  pub output_loop-source :
      (entries : Dict O) (e : String) (v : PropertyValue) (m : PropertyMap) {m' : PropertyMap}
      → NodupKeys entries
      → output_loop value entries m ≡ ok m'
      → Value.find e m' ≡ some v
      → (Value.find e m ≡ some v) ⊎ Origin e v entries
  unfolding output_loop
  output_loop-source [] e v m u p h = inl (ground arith)
  output_loop-source ((j, w) ∷ rest) e v m u p h =
      elim (Bool-cases (is_internal_output_resource j)) [
        | inl internal ↦
            source_lift e v j w rest u.0
              (output_loop-source rest e v m u.1 (rw (internal, output_loop) at p) h)
        | inr outer ↦ elim (output_loop-cons j w rest m outer p) [
          | round key x encodes made loop ↦
              elim (output_loop-source rest e v (Value.insert key x m) u.1 loop h) [
                | inl early ↦ source_here e v j w rest m outer key x encodes made early
                | inr s ↦ inr (source-cons e v j w rest u.0 s)
              ]
        ]
      ]

  -- The loop returns if every round does.
  pub output_loop_total :
      (entries : Dict O) (m : PropertyMap)
      → NodupKeys entries
      → ((k : String) (o : O)
          → lookup k entries ≡ some o
          → is_internal_output_resource k ≡ false
          → (v : PropertyValue) × (value k o ≡ ok v))
      → (m' : PropertyMap) × (output_loop value entries m ≡ ok m')
  unfolding output_loop lookup
  output_loop_total [] m u each = (m, refl)
  output_loop_total ((j, w) ∷ rest) m u each = elim (Bool-cases (is_internal_output_resource j)) [
    | inl internal ↦
        let (m', e) = output_loop_total rest m u.1 later in (m', rw (internal, output_loop) e)
    | inr outer ↦
        let (v, made) = each j w (ground (arith, eq_refl j)) outer in
        let (m', e) = output_loop_total rest (Value.insert (encode j) v m) u.1 later in
        (m', rw (outer, output_loop) (rw (top_level_key_lem j, made) e))
  ]
    where
      later :
          (k : String) (o : O)
          → lookup k rest ≡ some o
          → is_internal_output_resource k ≡ false
          → (v : PropertyValue) × (value k o ≡ ok v)
      later k o has outer = each k o (ground (arith, eq_iff j k, u.0)) outer

internal_source :
    (k name : String)
    → is_internal_output_resource k ≡ true
    → is_internal_output_resource name ≡ false
    → encode name ≡ k
    → ⊥
internal_source k name internal outer e = elim (Bool-cases ("id" == name)) [
  | inl reserved ↦ false≢true (rw (← e, reserved) at internal)
  | inr free ↦ cc (rw (free) at e)
]

output_loop-internal {ℓ} :
    {O : Type ℓ} (value : String → O → Outcome PropertyValue) (entries : Dict O) (k : String)
    {m' : PropertyMap}
    → NodupKeys entries
    → is_internal_output_resource k ≡ true
    → output_loop value entries end ≡ ok m'
    → Value.find k m' ≡ none
unfolding Value.find
output_loop-internal value entries k u internal p = elim (Option-cases (Value.find k _)) [
  | inl e ↦ e
  | inr (v, e) ↦ elim (output_loop-source value entries k v end u p e) [
    | inl old ↦ cc
    | inr s ↦ absurd (internal_source k s.name internal s.is_not_internal s.encoded)
  ]
]

encode_internal : (k : String) → is_internal_output_resource k ≡ true → encode k ≡ k
encode_internal k internal = elim (Bool-cases ("id" == k)) [
  | inl reserved ↦ absurd (false≢true (rw (← (eq_iff "id" k).0 reserved) at internal))
  | inr free ↦ rw free
]

-- What the result holds under the key of a raw output: nothing for an internal one, and what the
-- round computes for any other.
pub find-output_loop {ℓ} :
    {O : Type ℓ} (value : String → O → Outcome PropertyValue) (entries : Dict O) (k : String)
    (o : O) (w : PropertyValue) {m' : PropertyMap}
    → NodupKeys entries
    → lookup "id_" entries ≡ none
    → lookup k entries ≡ some o
    → ((v : PropertyValue) → value k o ≡ ok v → v ≡ w)
    → output_loop value entries end ≡ ok m'
    → Value.find (encode k) m' ≡ (if is_internal_output_resource k then none else some w)
find-output_loop value entries k o w u reserved has only p =
    elim (Bool-cases (is_internal_output_resource k)) [
      | inl internal ↦
          rw (internal, encode_internal k internal)
            (output_loop-internal value entries k u internal p)
      | inr outer ↦
          let (v, made, found) = output_loop-find value entries k o end u reserved outer has p in
          rw outer (found ∙ ap some (only v made))
    ]
