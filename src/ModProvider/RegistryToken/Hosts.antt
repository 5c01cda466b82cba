-- ===== src/ModProvider/RegistryToken/Hosts.antt =====
-- The variables of different hosts are different.
use Prim.Native.Char.{Char, code}
use pulumi_terraform_module.Prelude.{
  String, ◌≡◌, refl, ap, sym, ◌∙◌, Bool, true, false, not, ◌&&◌, ◌||◌, Bool-cases, inl, inr,
  if◌then◌else◌, eqb, arith,
}
use pulumi_terraform_module.ModProvider.RegistryToken.{
  replace_dashes, replace_dots, tf_token_env_key,
}
use text.Mathlib.TextEquality.{Char-path}
use text.Mathlib.TextLemmas.{append_cancel_left}

abbrev begins_with_separator : String → Bool
begins_with_separator String.[] = false
begins_with_separator (String.◌∷◌ c s) = eqb (code c) b'.' || eqb (code c) b'-'

-- A host name: no underscore, and no dot before a dot or a dash, since no part of a name is empty or
-- begins with a dash.
unfoldable pub is_host : String → Bool
is_host String.[] = true
is_host (String.◌∷◌ c s) =
    not (eqb (code c) b'_') && (not (eqb (code c) b'.' && begins_with_separator s) && is_host s)

-- The host of a key, without its prefix: two underscores are a dash, and another one is a dot.
unfoldable host_of : String → String
host_of String.[] = String.[]
host_of (String.◌∷◌ c String.[]) = if eqb (code c) b'_' then "." else String.◌∷◌ c String.[]
host_of (String.◌∷◌ c (String.◌∷◌ d s)) =
    let after_two = host_of s in
    let after_one = host_of (String.◌∷◌ d s) in
    if eqb (code c) b'_'
    then (if eqb (code d) b'_' then String.◌∷◌ "-" after_two else String.◌∷◌ "." after_one)
    else String.◌∷◌ c after_one

encode : String → String
encode s = replace_dots (replace_dashes s)

host_of_plain :
    (c : Char) (s : String)
    → eqb (code c) b'_' ≡ false
    → host_of (String.◌∷◌ c s) ≡ String.◌∷◌ c (host_of s)
unfolding host_of
host_of_plain c String.[] h = rw h refl
host_of_plain c (String.◌∷◌ d s) h = rw h refl

-- The key after a dot does not go on with an underscore.
host_of_dot :
    (s : String)
    → is_host s ≡ true
    → begins_with_separator s ≡ false
    → host_of (String.◌∷◌ "_" (encode s)) ≡ String.◌∷◌ "." (host_of (encode s))
unfolding host_of encode replace_dashes replace_dots is_host
host_of_dot String.[] h b = refl
host_of_dot (String.◌∷◌ c s) h b =
    let plain : eqb (code c) b'_' ≡ false = ground arith in
    let no_dot : eqb (code c) b'.' ≡ false = ground arith in
    let no_dash : eqb (code c) b'-' ≡ false = ground arith in rw (no_dash, no_dot, plain) refl

both_true : (b c : Bool) → (b && c) ≡ true → (b ≡ true) × (c ≡ true)
both_true true c h = (refl, h)
both_true false c h = cc

is_false : (b : Bool) → not b ≡ true → b ≡ false
is_false true h = cc
is_false false h = refl

-- What is known of the first character of a host, and of the rest.
is_host_parts :
    (c : Char) (s : String)
    → is_host (String.◌∷◌ c s) ≡ true
    → (eqb (code c) b'_' ≡ false)
      × ((eqb (code c) b'.' && begins_with_separator s) ≡ false)
      × (is_host s ≡ true)
unfolding is_host
is_host_parts c s h =
    let (plain, more) = both_true (not (eqb (code c) b'_')) _ h in
    let (apart, rest) =
      both_true (not (eqb (code c) b'.' && begins_with_separator s)) (is_host s) more in
    (is_false _ plain, is_false _ apart, rest)

same_char : (c d : Char) → eqb (code c) (code d) ≡ true → c ≡ d
same_char c d h = Char-path c d (ground arith)

host_of-encode : (s : String) → is_host s ≡ true → host_of (encode s) ≡ s
unfolding host_of encode replace_dashes replace_dots
host_of-encode String.[] h = refl
host_of-encode (String.◌∷◌ c s) h =
    let (plain, apart, rest) = is_host_parts c s h in
    let ih = host_of-encode s rest in
    elim (Bool-cases (eqb (code c) b'-')) [
      | inl dash ↦ rw (dash, same_char c "-" dash) (ap (λ t. String.◌∷◌ "-" t) ih)
      | inr no_dash ↦ elim (Bool-cases (eqb (code c) b'.')) [
        | inl dot ↦
            rw (no_dash, dot, same_char c "." dot)
              (host_of_dot s rest (rw dot at apart) ∙ ap (λ t. String.◌∷◌ "." t) ih)
        | inr no_dot ↦
            rw (no_dash, no_dot) (host_of_plain c (encode s) plain ∙ ap (λ t. String.◌∷◌ c t) ih)
      ]
    ]

-- Different hosts have different variables, for host names without underscores and without a dot before
-- a dot or a dash.
pub tf_token_env_key-injective :
    (a b : String)
    → is_host a ≡ true
    → is_host b ≡ true
    → tf_token_env_key a ≡ tf_token_env_key b
    → a ≡ b
unfolding tf_token_env_key encode
tf_token_env_key-injective a b ha hb same =
    sym (host_of-encode a ha)
    ∙ ap host_of (append_cancel_left "TF_TOKEN_" (encode a) (encode b) same)
    ∙ host_of-encode b hb
