-- ===== src/TfSandbox/Source.antt =====
-- pkg/tfsandbox/types.go: sources of modules.
use Prim.Native.Char.{code}
use pulumi_terraform_module.Prelude.{
  String, Bool, Option, none, some, ◌||◌, ◌==◌, starts_with, if◌then◌else◌, eqb,
}

-- `IsLocalPath`
unfoldable pub is_local_path : String → Bool
is_local_path source = starts_with source "./" || starts_with source "../"

-- `strings.TrimPrefix(ref, "v")`
abbrev pub trim_v : String → String
trim_v String.[] = String.[]
trim_v (String.◌∷◌ c rest) = if eqb (code c) b'v' then rest else String.◌∷◌ c rest

-- `ReferencedVersionInURL`, from what `Query().Get("ref")` of the parsed source is (none, if the source is
-- no URL)
unfoldable pub referenced_version_in_url : Option String → Option String
referenced_version_in_url none = none
referenced_version_in_url (some ref) = if trim_v ref == "" then none else some (trim_v ref)
