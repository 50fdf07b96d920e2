-- ===== src/Setup.antt =====
-- internal/core/setup: the provisioning run behind `service setup`.
pub mod Reconcile
pub mod Provision
pub mod Verify
pub mod Deploy
