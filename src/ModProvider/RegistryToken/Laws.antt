-- ===== src/ModProvider/RegistryToken/Laws.antt =====
-- What the registry's token changes in the environment.
use pulumi_terraform_module.Prelude.{
  String, ◌≡◌, refl, ◌∙◌, Bool, true, false, Option, some, ◌==◌, eq_iff, eq_refl, Bool-cases, inl,
  inr, if◌then◌else◌,
}
use pulumi_terraform_module.Prelude.Outcome.{ok}
use pulumi_terraform_module.Prelude.Dict.{Dict, lookup, insert, lookup-insert}
use pulumi_terraform_module.ModProvider.RegistryToken.{
  CloudRegistry, tf_token_env_key, is_unset, inject_registry_token,
}
use pulumi_terraform_module.ModProvider.RegistryToken.Hosts.{is_host, tf_token_env_key-injective}

-- The token of `host`: the registry's, if the host is the registry's and no other token is set.
abbrev pub token_after : CloudRegistry → String → Option String → Option String
token_after reg host before =
    if reg.host == host then (if is_unset before then some reg.token else before) else before

set_if :
    (key wanted value : String) (unset : Bool) (env : Dict String)
    → lookup wanted (if unset then insert key value env else env) ≡ (
        if unset
        then (if key == wanted then some value else lookup wanted env)
        else lookup wanted env)
set_if key wanted value true env = lookup-insert key wanted value env
set_if key wanted value false env = refl

unchanged : (unset : Bool) (before : Option String) → (if unset then before else before) ≡ before
unchanged true before = refl
unchanged false before = refl

other_variable :
    (a b : String)
    → is_host a ≡ true
    → is_host b ≡ true
    → (a == b) ≡ false
    → (tf_token_env_key a == tf_token_env_key b) ≡ false
other_variable a b ha hb apart = elim (Bool-cases (tf_token_env_key a == tf_token_env_key b)) [
  | inr e ↦ e
  | inl e ↦ cc (
    (eq_iff a b).1 (
        tf_token_env_key-injective a b ha hb
          ((eq_iff (tf_token_env_key a) (tf_token_env_key b)).0 e)),
    apart,
  )
]

-- `injectRegistryToken` with a registry gives its token to its host, unless a token of the user's is set,
-- and leaves the variable of every other host as it was, for host names without underscores and without
-- a dot before a dot or a dash. It does not warn.
pub lookup-inject_registry_token :
    (reg : CloudRegistry) (host : String) (env : Dict String)
    → is_host reg.host ≡ true
    → is_host host ≡ true
    → (env' : Dict String) × (inject_registry_token (ok (some reg)) env ≡ ok (false, env'))
      × (lookup (tf_token_env_key host) env'
          ≡ token_after reg host (lookup (tf_token_env_key host) env))
unfolding inject_registry_token
lookup-inject_registry_token reg host env ha hb = (
  _,
  refl,
  set_if (tf_token_env_key reg.host) (tf_token_env_key host) reg.token
        (is_unset (lookup (tf_token_env_key reg.host) env)) env
      ∙ elim (Bool-cases (reg.host == host)) [
        | inr there ↦
            rw (there, other_variable reg.host host ha hb there)
              (unchanged (is_unset (lookup (tf_token_env_key reg.host) env)) _)
        | inl here ↦
            rw (here, ← (eq_iff reg.host host).0 here, eq_refl (tf_token_env_key reg.host)) refl
      ],
)
