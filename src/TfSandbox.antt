-- ===== src/TfSandbox.antt =====
-- pkg/tfsandbox: terraform's plans and states, the values in them, and the working directory.
pub mod Keys
pub mod Secrets
pub mod Replace
pub mod Resources
pub mod Outputs
pub mod Plan
pub mod State
pub mod Files
pub mod Locals
pub mod Source
pub mod SeedFile
pub mod Workdir
pub mod Runtime
pub mod Commands
