-- ===== src/Lib.antt =====
-- The Pulumi provider for Terraform modules (pkg/): what it shows of a module's plans and states, and
-- how it drives the module.
--
-- Parts, by file:
--   * Pulumi/Value, Pulumi/Json: property values of the SDK, and decoded JSON.
--   * TfSandbox/Keys: pkg/tfsandbox/keys.go and pkg/pulumix/reserved.go.
--   * TfSandbox/Replace, TfSandbox/Secrets: `mapReplv`, `updateResourceValue` of
--     pkg/tfsandbox/resources.go and `resourceMakeSecretConservative` of pkg/tfsandbox/secrets.go. Go
--     passes maps and slices by reference, so a call returns, beside its result, what it leaves in its
--     argument (`kept`).
--   * TfSandbox/Resources: the rest of pkg/tfsandbox/resources.go.
--   * TfSandbox/Plan, TfSandbox/State, TfSandbox/Outputs: pkg/tfsandbox/details.go.
--   * TfSandbox/Files: pkg/tfsandbox/state.go, on a directory with a state file and a lock file.
--   * TfSandbox/Source, TfSandbox/Locals, TfSandbox/SeedFile: pkg/tfsandbox/types.go and
--     pkg/tfsandbox/tf_file.go. `decode` calls itself through `MapRepl` of the SDK, so it is bounded by the
--     number of secrets and outputs in the value, which is enough.
--   * ModProvider/Views: pkg/modprovider/views.go and child.go.
--   * ModProvider/Meta, ModProvider/Remap, ModProvider/Module, ModProvider/Handlers:
--     pkg/modprovider/module.go, with what it calls of pkg/tfsandbox/plan.go, apply.go, refresh.go and
--     show.go. A handler is a run (ModProvider/Run): the events that it causes, in order, and what it
--     ends in. The answers of the subprocess, the file system and the engine are the fields of `Env`.
--   * ModProvider/Parameters, ModProvider/Config: the parameters and the configuration of the provider, in
--     pkg/modprovider/server.go.
--   * ModProvider/Server: the state of the provider and the requests, in pkg/modprovider/server.go. The
--     handlers of resources, which ModProvider/Handlers models, are an argument there.
--   * ModProvider/RegistryToken: pkg/modprovider/registry_token.go.
--   * ModProvider/Schema: `convertType` of pkg/modprovider/tfmodules.go; Schema/Expressions and
--     Schema/Infer: the schema of a module, in the same file; Schema/Combine: a partial schema over it,
--     and the package, in pkg/modprovider/schema.go; Schema/Versions: the latest version, and the
--     overrides that are built in.
--   * ModProvider/Overrides: the directory of a resolved module, the override of a schema for a version
--     and the lists of required names, in pkg/modprovider/tfmodules.go.
--   * TfSandbox/Workdir, TfSandbox/Runtime: pkg/tfsandbox/workdir.go and pkg/tfsandbox/runtime.go.
--   * TfSandbox/Commands: the options of the commands, in pkg/tfsandbox/plan.go, apply.go, refresh.go,
--     init.go and destroy.go.
--   * AuxProvider: pkg/auxprovider, whose resource the seed file uses for unknown values.
--   * ModProvider/Logging: pkg/tfsandbox/log.go and pkg/modprovider/logger.go.
--   * TofuResolver/Resolver: pkg/tofuresolver/resolver.go.
--   * TofuResolver/Installer: pkg/tofuresolver/installer.go, on the files that it leaves when it fails
--     or crashes at any call.
--
-- A plan or a state is read by `NewPlan` or `NewState`; its outputs and the properties of its resources
-- are shown with `Outputs`, `PlannedValues`, `Before` and `AttributeValues`, which hide what Terraform
-- marks as sensitive; the handlers of the module's resource run terraform and record its state in the
-- outputs of the resource; the views turn a plan and a final state into the steps that the engine is told.
--
-- A Go call ends in a value, an error or a panic (`Outcome`). Go maps are lists of entries with
-- distinct keys; a `range` over one visits the entries in order, and a theorem about it holds for every
-- order since it holds for every list. All recursion is structural but that of `decode` (TfSandbox/Locals).
--
-- Code that is not in the repository is a parameter: the SDK's conversion of JSON to property values,
-- `MapRepl` and `json.Unmarshal`, `plugin.MarshalProperties`, the names of the operations, the subprocess,
-- the file system, the registry, the loader of terraform's configurations, and the parsing of versions
-- and URLs.
--
-- Not modelled: gRPC plumbing, the subprocess itself, the pool of status clients, the lock between
-- processes that infer a schema, the properties of pkg/pulumix that only tests use, and generated code.
pub mod Prelude
pub mod Pulumi
pub mod TfSandbox
pub mod TofuResolver
pub mod AuxProvider
pub mod ModProvider
mod Tests
