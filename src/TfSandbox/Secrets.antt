-- ===== src/TfSandbox/Secrets.antt =====
-- pkg/tfsandbox/secrets.go
use pulumi_terraform_module.Prelude.{if◌then◌else◌}
use pulumi_terraform_module.Pulumi.Value.{PropertyValue, secret, is_null, is_unknown}

-- `resourceMakeSecretConservative`
unfoldable pub make_secret_conservative : PropertyValue → PropertyValue
make_secret_conservative value =
    if is_null value then value else if is_unknown value then value else secret value
