-- ===== src/Prelude/Text.antt =====
-- Texts read from their ends and character by character.
use Prim.Native.Char.{Char, code}
use Prim.Native.Nat.{ℕ}
use mathlib.Core.List.{List, [], ◌∷◌}
use Prim.Native.String.{String, ◌++◌ as ◌<>◌}
use mathlib.Core.Path.{◌≡◌, refl, ap}
use mathlib.Core.Option.{Option, none, some, some-injective}
use text.Mathlib.TextLemmas.{cons-append, prefix-append}
use text.Mathlib.TextPositions.{starts_with_of_prefix}
use text.Mathlib.Text.{starts_with}
use mathlib.Core.Bool.{true}
use mathlib.Core.Logic.{inl, inr}
use native.Mathlib.Omega.{arith}
use text.Mathlib.TextEquality.{Char-path}
use pulumi_terraform_module.Prelude.Tests.{if◌then◌else◌, Option-cases}
use pulumi_terraform_module.Prelude.Numbers.{eqb}

-- The text without its last character, if that is an underscore.
unfoldable pub before_underscore : String → Option String
before_underscore String.[] = none
before_underscore (String.◌∷◌ c String.[]) = if eqb (code c) b'_' then some String.[] else none
before_underscore (String.◌∷◌ c (String.◌∷◌ d s)) = elim (before_underscore (String.◌∷◌ d s)) [
  | none ↦ none
  | some p ↦ some (String.◌∷◌ c p)
]

pub before_underscore-append : (s : String) → before_underscore (s <> "_") ≡ some s
unfolding before_underscore
before_underscore-append String.[] = refl
before_underscore-append (String.◌∷◌ c String.[]) = rw cons-append
before_underscore-append (String.◌∷◌ c (String.◌∷◌ d s)) =
    let ih = rw cons-append at (before_underscore-append (String.◌∷◌ d s)) in
    rw (cons-append, cons-append) (rw (ih, before_underscore))

last_underscore :
    (c : Char) (p : String)
    → (if eqb (code c) b'_' then some String.[] else none) ≡ some p
    → (code c ≡ b'_') × (String.[] ≡ p)
last_underscore c p h = (ground arith, ground arith)

pub before_underscore-some : (s p : String) → before_underscore s ≡ some p → s ≡ p <> "_"
unfolding before_underscore
before_underscore-some String.[] p h = cc
before_underscore-some (String.◌∷◌ c String.[]) p h =
    let (same, empty) = last_underscore c p h in
    rw (← empty) (ap (λ x. String.◌∷◌ x String.[]) (Char-path c _ same))
before_underscore-some (String.◌∷◌ c (String.◌∷◌ d s)) p h =
    elim (Option-cases (before_underscore (String.◌∷◌ d s))) [
      | inl e ↦ cc (rw (e, before_underscore) at h)
      | inr (q, e) ↦
          let start : String.◌∷◌ c q ≡ p = some-injective _ _ (rw (e, before_underscore) at h) in
          rw (← start, cons-append)
            (ap (λ x. String.◌∷◌ c x) (before_underscore-some (String.◌∷◌ d s) q e))
    ]

-- A text begins with what it was built from.
pub starts_with-append : (p s : String) → starts_with (p <> s) p ≡ true
starts_with-append p s = starts_with_of_prefix p (p <> s) (prefix-append p s)

-- `strings.Split`, at the characters with the code
abbrev pub onto_first : String → List String → List String
onto_first c [] = c ∷ []
onto_first c (part ∷ parts) = (c <> part) ∷ parts

unfoldable pub split_on : ℕ → String → List String
split_on at String.[] = "" ∷ []
split_on at (String.◌∷◌ c s) =
    let parts = split_on at s in
    if eqb (code c) at then "" ∷ parts else onto_first (String.◌∷◌ c String.[]) parts
