-- ===== src/ModProvider.antt =====
-- pkg/modprovider: the Pulumi provider that runs a terraform module as one resource.
pub mod Views
pub mod Meta
pub mod Remap
pub mod Run
pub mod Module
pub mod Handlers
pub mod Parameters
pub mod Config
pub mod Overrides
pub mod RegistryToken
pub mod Schema
pub mod Server
pub mod Logging
