-- ===== src/Pulumi.antt =====
-- The values that the provider computes with: JSON documents of terraform and property values of
-- the Pulumi SDK.
pub mod Json
pub mod Value
