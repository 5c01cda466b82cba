-- ===== src/TfSandbox/Workdir/Bounds.antt =====
-- The length of path components.
use Prim.Native.Nat.{compare as compare_nat, Ordering}
use Prim.Native.Char.{Char, len_utf8}
use Prim.Native.String.{len, slice, fits}
use Prim.Native.String.slice.{cons-zero as slice_cons, nil as slice_nil}
use Prim.Native.String.len.{cons as len_cons, nil as len_nil}
use pulumi_terraform_module.Prelude.{
  ℕ, zero, ◌-◌, ◌≤◌, ◌≡◌, refl, String, List, [], ◌∷◌, ◌++◌, length, ◌==◌, arith, Bool-cases, inl,
  inr, leb,
}
use pulumi_terraform_module.TfSandbox.Workdir.{
  Machine, safe_path_component, suffix, module_workdir, module_instance_workdir, with_executor,
}
use native.Mathlib.Omega.{compare-lt, compare-eq}
use text.Mathlib.TextPositions.{len-append}

len-fits :
    (o : Ordering) (c : Char) (s : String) (b : ℕ)
    → compare_nat (len_utf8 c) b ≡ o
    → len s ≤ b - len_utf8 c
    → len (fits o c s) ≤ b
len-fits Ordering.lt c s b e h = omega (arith, len_cons c s, compare-lt (len_utf8 c) b e, h)
len-fits Ordering.eq c s b e h = omega (arith, len_cons c s, compare-eq (len_utf8 c) b e, h)
len-fits Ordering.gt c s b e h = omega (arith, len_nil)

len-slice : (s : String) (b : ℕ) → len (slice s zero b) ≤ b
len-slice String.[] b = rw (slice_nil zero b, len_nil) (omega arith)
len-slice (String.◌∷◌ c s) b =
    rw (slice_cons c s b)
      (len-fits _ c (slice s zero (b - len_utf8 c)) b refl (len-slice s (b - len_utf8 c)))

module _ (env : Machine) where
  len-suffix : (s : String) → len (suffix env s) ≤ 17
  len-suffix s =
      omega (arith, len-append "-" (slice (env.sum_hex s) 0 16), len-slice (env.sum_hex s) 16)

  len-safe_path_component : (s : String) → len (safe_path_component env s) ≤ 200
  unfolding safe_path_component
  len-safe_path_component s = elim (Bool-cases (leb (len (env.path_escape s)) 200)) [
    | inl short ↦ rw short (ground arith)
    | inr long ↦ rw long (
        omega (
          arith,
          len-append (slice (env.path_escape s) 0 (200 - len (suffix env s))) (suffix env s),
          len-slice (env.path_escape s) (200 - len (suffix env s)),
          len-suffix s,
        ))
  ]

  abbrev pub AreShort : List String → Type 0
  AreShort [] = Unit
  AreShort (part ∷ rest) = (len part ≤ 200) × AreShort rest

  -- Every component of the working directory of a module has at most 200 bytes, and so has every one of a
  -- module's instance, but for the name of the executor that may come first.
  pub AreShort-workdirs :
      (source version executor urn : String)
      → AreShort (module_workdir env source version)
        × ((prefix : List String) × (rest : List String) × (module_instance_workdir env executor urn
              ≡ prefix ++ rest)
            × (length prefix ≤ 1)
            × AreShort rest
            × (length rest ≡ 2))
  unfolding module_workdir module_instance_workdir with_executor
  AreShort-workdirs source version executor urn = (
    elim (Bool-cases (version == "")) [
      | inl e ↦ rw e (omega arith, (len-safe_path_component source, tt))
      | inr e ↦
          rw e
            (omega arith, (len-safe_path_component source, (len-safe_path_component version, tt)))
    ],
    elim (Bool-cases (executor == "")) [
      | inl e ↦
          rw e ([], _, refl, omega arith, (omega arith, (len-safe_path_component urn, tt)), refl)
      | inr e ↦
          rw e
            (_ ∷ [], _, refl, omega arith, (omega arith, (len-safe_path_component urn, tt)), refl)
    ],
  )
