-- ===== src/Tests/AuxProviders.antt =====
-- The auxiliary provider at concrete values.
use pulumi_terraform_module.Prelude.{◌≡◌, refl, true, some, [], ◌∷◌}
use pulumi_terraform_module.Prelude.Outcome.{ok}
use pulumi_terraform_module.Prelude.Dict.{lookup, insert}
use pulumi_terraform_module.AuxProvider.{
  Host, ReattachConfig, serve, compute_reattach_info, terraform_address, tofu_address,
  provider_type_name, resource_type_name,
}
use pulumi_terraform_module.TfSandbox.SeedFile.{resources, object_of}

-- The seed file declares the resource of the provider, under its type.
proxy_run :
    lookup (resource_type_name provider_type_name) (resources true)
    ≡ some (object_of (("unknown_proxy", object_of []) ∷ []))
unfolding resource_type_name lookup
proxy_run = refl

abbrev host : Host
host = record { listen = ok ("tcp", "127.0.0.1:80"); register = ok tt; gid = 20 }

abbrev config : ReattachConfig
config = record {
  protocol = "grpc";
  protocol_version = 6;
  pid = 20;
  test = true;
  network = "tcp";
  address = "127.0.0.1:80";
}

serve_run : serve host ≡ ok ((terraform_address, config) ∷ (tofu_address, config) ∷ [])
unfolding serve compute_reattach_info insert
serve_run = refl
