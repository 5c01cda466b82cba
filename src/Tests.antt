-- ===== src/Tests.antt =====
-- Runs on small inputs, and the theorems at concrete data.
mod Values
mod Documents
mod Steps
mod Operations
mod Setup
mod MapRepl
mod Seed
mod Machines
mod Schemas
mod Servers
mod Commands
mod AuxProviders
