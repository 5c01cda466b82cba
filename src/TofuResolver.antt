-- ===== src/TofuResolver.antt =====
-- pkg/tofuresolver: the installation of tofu.
pub mod Installer
pub mod Resolver
