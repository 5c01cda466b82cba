-- ===== src/TfSandbox/Keys/Laws.antt =====
-- Encoding and decoding top-level keys.
use pulumi_terraform_module.Prelude.{
  String, ◌≡◌, ◌≢◌, false, ap, sym, ◌∙◌, ◌<>◌, arith, ◌==◌, eq_iff, Bool-cases, Option-cases, inl,
  inr, if◌then◌else◌,
}
use pulumi_terraform_module.Prelude.Outcome.{ok}
use pulumi_terraform_module.Prelude.Text.{before_underscore, before_underscore-some}
use pulumi_terraform_module.TfSandbox.Keys.{pulumi_top_level_key, decode_pulumi_top_level_key}

-- The encoding, written out.
abbrev pub encode : String → String
encode k = if "id" == k then "id_" else k

pub top_level_key_lem : (k : String) → pulumi_top_level_key k ≡ ok (encode k)
unfolding pulumi_top_level_key
top_level_key_lem k = elim (Bool-cases ("id" == k)) [
  | inl reserved ↦ rw reserved (rw (← (eq_iff "id" k).0 reserved))
  | inr free ↦ rw free
]

decode_other : (s : String) → ("id_" == s) ≡ false → decode_pulumi_top_level_key s ≡ s
unfolding decode_pulumi_top_level_key
decode_other s other = elim (Option-cases (before_underscore s)) [
  | inl e ↦ rw (e, decode_pulumi_top_level_key)
  | inr (p, e) ↦ elim (Bool-cases ("id" == p)) [
    | inl reserved ↦
        let whole : s ≡ "id_" =
          before_underscore-some s p e ∙ ap (λ x. x <> "_") (sym ((eq_iff "id" p).0 reserved)) in
        ground (arith, eq_iff "id_" s, sym whole)
    | inr free ↦ rw (e, decode_pulumi_top_level_key) (rw free)
  ]
]

pub decode_lem : (s : String) → decode_pulumi_top_level_key s ≡ (if "id_" == s then "id" else s)
unfolding decode_pulumi_top_level_key
decode_lem s = elim (Bool-cases ("id_" == s)) [
  | inl same ↦ rw same (rw (← (eq_iff "id_" s).0 same))
  | inr other ↦ rw other (decode_other s other)
]

-- Encoding never panics, and decoding what was encoded gives the key back, except for the key `id_`,
-- which decodes to `id`.
pub decode-top_level_key :
    (k : String)
    → (e : String) × (pulumi_top_level_key k ≡ ok e)
      × (decode_pulumi_top_level_key e ≡ (if "id_" == k then "id" else k))
decode-top_level_key k = (if "id" == k then "id_" else k, top_level_key_lem k, decoded)
  where
    decoded :
        decode_pulumi_top_level_key (if "id" == k then "id_" else k)
        ≡ (if "id_" == k then "id" else k)
    decoded = elim (Bool-cases ("id" == k)) [
      | inl reserved ↦ rw (← (eq_iff "id" k).0 reserved) (decode_lem "id_")
      | inr free ↦ rw free (decode_lem k)
    ]

-- Encoding what was decoded from a key gives that key, for every key but `id`, which no encoding
-- yields.
pub top_level_key-decode :
    (e : String) → "id" ≢ e → pulumi_top_level_key (decode_pulumi_top_level_key e) ≡ ok e
top_level_key-decode e h = elim (Bool-cases ("id_" == e)) [
  | inl same ↦ rw (← (eq_iff "id_" e).0 same) (rw decode_lem (top_level_key_lem "id"))
  | inr other ↦ rw (decode_lem, other) (rw top_level_key_lem (ground (arith, eq_iff "id" e)))
]

-- Encoding is injective away from `id_`.
pub encode-ne :
    (j k : String)
    → (j == k) ≡ false
    → (j == "id_") ≡ false
    → (k == "id_") ≡ false
    → (encode j == encode k) ≡ false
encode-ne j k ne hj hk = elim (Bool-cases ("id" == j)) [
  | inl ej ↦ elim (Bool-cases ("id" == k)) [
    | inl ek ↦ ground (arith, eq_iff "id" j, eq_iff "id" k, eq_iff j k)
    | inr nk ↦ rw (ej, nk) (ground (arith, eq_iff "id_" k, eq_iff k "id_"))
  ]
  | inr nj ↦ elim (Bool-cases ("id" == k)) [ inl ek ↦ rw (nj, ek) hj | inr nk ↦ rw (nj, nk) ne ]
]
