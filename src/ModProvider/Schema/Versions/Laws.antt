-- ===== src/ModProvider/Schema/Versions/Laws.antt =====
-- The latest version is the greatest.
use pulumi_terraform_module.Prelude.{
  Bool, ◌||◌, ◌&&◌, not, refl, String, ◌≡◌, ◌⊎◌, inl, inr, true, false, Option, none, some,
  some-injective, List, [], ◌∷◌, eq_refl, or_right, or_left, Bool-cases, Option-cases, ap, ◌∙◌,
}
use pulumi_terraform_module.Prelude.Outcome.{ok, >>=-eq-ok, ok-injective}
use pulumi_terraform_module.TfSandbox.Keys.{contains}
use pulumi_terraform_module.ModProvider.Schema.Versions.{
  Registry, registry, later_of, next_latest, latest_loop, found_latest, latest_in,
  latest_module_version,
}

module _ {V : Type 0} (env : Registry V) where
  -- `GreaterThan` is the order of versions: nothing is greater than a version that is greater than it, and
  -- what is not greater than a version is not greater than one above it.
  pub record IsOrder : Type 0 where
    pub asymmetric : (a b : V) → env.greater_than a b ≡ true → env.greater_than b a ≡ false
    pub transitive :
        (a b c : V)
        → env.greater_than a b ≡ false
        → env.greater_than b c ≡ false
        → env.greater_than a c ≡ false

  abbrev AtMost : Option V → V → Type 0
  AtMost none v = Unit
  AtMost (some u) v = env.greater_than u v ≡ false

  -- A release among the texts.
  abbrev pub Released : List String → V → Type 0
  Released versions v =
      (text : String) × (contains versions text ≡ true)
      × (env.new_version text ≡ some v)
      × (env.is_prerelease v ≡ false)

  -- A text that is a version, and if that is a release, `v` is no less.
  abbrev at_most : V → Option V → Bool
  at_most v none = false
  at_most v (some w) = env.is_prerelease w || not (env.greater_than w v)

  -- The texts are versions, and no release among them is greater.
  abbrev pub none_greater : V → List String → Bool
  none_greater v [] = true
  none_greater v (text ∷ rest) = at_most v (env.new_version text) && none_greater v rest

  -- The greatest release that the registry lists of the package.
  abbrev pub IsLatest : String → V → Type 0
  IsLatest package_name v =
      (versions : List String) × (env.module_versions package_name ≡ ok versions)
      × Released versions v
      × (none_greater v versions ≡ true)

  module _ (order : IsOrder) where
    later_of-AtMost :
        (w v : V) (latest : Option V)
        → AtMost (later_of env w latest) v
        → AtMost latest v × (env.greater_than w v ≡ false)
    later_of-AtMost w v none h = (tt, h)
    later_of-AtMost w v (some u) h = elim (Bool-cases (env.greater_than w u)) [
      | inl e ↦
          let below = rw e at h in (order.transitive u w v (order.asymmetric w u e) below, below)
      | inr e ↦ let below = rw e at h in (below, order.transitive w u v e below)
    ]

    next_latest-AtMost :
        (w v : V) (latest : Option V)
        → AtMost (next_latest env w latest) v
        → AtMost latest v × (at_most v (some w) ≡ true)
    next_latest-AtMost w v latest h = elim (Bool-cases (env.is_prerelease w)) [
      | inl e ↦ (rw e at h, rw e refl)
      | inr e ↦
          let (before, new) = later_of-AtMost w v latest (rw e at h) in (before, rw (e, new) refl)
    ]

    -- Where the result of the loop comes from.
    Origin : List String → Option V → V → Type 0
    Origin versions latest v = (latest ≡ some v) ⊎ Released versions v

    next_latest-Origin :
        (text : String) (w v : V) (latest : Option V) (rest : List String)
        → env.new_version text ≡ some w
        → next_latest env w latest ≡ some v
        → Origin (text ∷ rest) latest v
    unfolding Origin
    next_latest-Origin text w v none rest parsed h = elim (Bool-cases (env.is_prerelease w)) [
      | inl e ↦ cc (rw e at h)
      | inr e ↦
          let same : w ≡ v = some-injective w v (rw e at h) in
          inr (text, or_left _ _ (eq_refl text), rw (← same) parsed, rw (← same) e)
    ]
    next_latest-Origin text w v (some u) rest parsed h = elim (Bool-cases (env.is_prerelease w)) [
      | inl e ↦ inl (rw e at h)
      | inr e ↦ elim (Bool-cases (env.greater_than w u)) [
        | inr g ↦ inl (rw (e, g) at h)
        | inl g ↦
            let same : w ≡ v = some-injective w v (rw (e, g) at h) in
            inr (text, or_left _ _ (eq_refl text), rw (← same) parsed, rw (← same) e)
      ]
    ]

    self : (v : V) → env.greater_than v v ≡ false
    self v = elim (Bool-cases (env.greater_than v v)) [ inl e ↦ order.asymmetric v v e | inr e ↦ e ]

    latest_loop_lem :
        (versions : List String) (latest : Option V) (v : V)
        → latest_loop env versions latest ≡ ok (some v)
        → Origin versions latest v × AtMost latest v × (none_greater v versions ≡ true)
    unfolding latest_loop Origin
    latest_loop_lem [] latest v h =
        let same = ok-injective latest (some v) h in (inl same, rw same (self v), refl)
    latest_loop_lem (text ∷ rest) latest v h = elim (Option-cases (env.new_version text)) [
      | inl e ↦ cc (rw (e, latest_loop) at h)
      | inr (w, e) ↦
          let (origin, most, others) =
            latest_loop_lem rest (next_latest env w latest) v (rw (e, latest_loop) at h) in
          let (before, new) = next_latest-AtMost w v latest most in
          (
            elim origin [
              | inl here ↦ next_latest-Origin text w v latest rest e here
              | inr (t, listed, parsed, released) ↦ inr (t, or_right _ _ listed, parsed, released)
            ],
            before,
            rw (e, new, others) refl,
          )
    ]

    found_some : (latest : Option V) (v : V) → found_latest env latest ≡ ok v → latest ≡ some v
    found_some none v h = cc
    found_some (some u) v h = cc

    listed_one : (versions : List String) (v : V) → Origin versions none v → Released versions v
    unfolding Origin
    listed_one versions v (inl h) = cc
    listed_one versions v (inr r) = r

    -- The latest version of a module of the registry is a release that the registry lists. Everything that
    -- the registry lists is a version then, and no release among them is greater.
    pub latest_module_version-greatest :
        (source package_name : String) (v : V)
        → env.parse_source source ≡ registry package_name
        → latest_module_version env source ≡ ok v
        → IsLatest package_name v
    unfolding latest_module_version latest_in latest_loop
    latest_module_version-greatest source package_name v parsed returned =
        let (versions, found, more) =
          >>=-eq-ok (env.module_versions package_name) _ (rw (parsed, latest_in) at returned) in
        let (latest, looped, last) =
          >>=-eq-ok (latest_loop env versions none) (found_latest env) more in
        let (origin, most, others) =
          latest_loop_lem versions none v (looped ∙ ap ok (found_some latest v last)) in
        (versions, found, listed_one versions v origin, others)
