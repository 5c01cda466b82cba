-- ===== src/AuxProvider.antt =====
-- pkg/auxprovider: the provider with the resource that stands for unknown values, and how terraform finds
-- it. The listener and the gRPC server are parameters.
use pulumi_terraform_module.Prelude.{String, ◌<>◌, ℕ, Bool, true, []}
use pulumi_terraform_module.Prelude.Outcome.{Outcome, ok, err, panic, ◌>>=◌}
use pulumi_terraform_module.Prelude.Dict.{Dict, insert}

-- `tfexec.ReattachConfig`
pub record ReattachConfig : Type 0 where
  pub protocol : String
  pub protocol_version : ℕ
  pub pid : ℕ
  pub test : Bool
  pub network : String
  pub address : String

abbrev pub terraform_address : String
terraform_address = "registry.terraform.io/hashicorp/pulumiaux"

abbrev pub tofu_address : String
tofu_address = "registry.opentofu.org/hashicorp/pulumiaux"

-- `computeReattachInfo`: `gid` is what `os.Getgid` gives, which the code takes for the process.
unfoldable pub compute_reattach_info : ℕ → String → String → Dict ReattachConfig
unfolding insert
compute_reattach_info gid network address =
    let config : ReattachConfig = record {
      protocol = "grpc";
      protocol_version = 6;
      pid = gid;
      test = true;
      network = network;
      address = address;
    } in
    insert tofu_address config (insert terraform_address config [])

-- What the server runs on.
pub record Host : Type 0 where
  -- `net.Listen`: the network and the address
  pub listen : Outcome (String × String)
  -- `plugin.GRPCServer`
  pub register : Outcome (Unit {0})
  pub gid : ℕ

-- `Serve`: how terraform finds the server
unfoldable pub serve : Host → Outcome (Dict ReattachConfig)
unfolding compute_reattach_info
serve host = host.listen >>= λ listener.
    host.register >>= λ u. ok (compute_reattach_info host.gid (listener.0) (listener.1))

-- What `Serve` of the gRPC server ends in: nothing, `ErrServerStopped`, or another error.
pub data Served : Type 0 where
  without_error server_stopped : Served
  with_error : String → Served

-- `Close`
unfoldable pub close : Served → Outcome (Unit {0})
close without_error = ok tt
close server_stopped = ok tt
close (with_error e) = err e

-- `Metadata` of the provider and of its resource
abbrev pub provider_type_name : String
provider_type_name = "pulumiaux"

unfoldable pub resource_type_name : String → String
resource_type_name provider = provider <> "_unk"

-- The calls of terraform for the resource, each of which panics: it is there for plans only.
pub data ResourceCall : Type 0 where
  create read update delete : ResourceCall

unfoldable pub unknown_resource : ResourceCall → Outcome (Unit {0})
unknown_resource create = panic
unknown_resource read = panic
unknown_resource update = panic
unknown_resource delete = panic
