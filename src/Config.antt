-- ===== src/Config.antt =====
-- src/config/index.ts: the reading of settings, in its children.
pub mod Expiry
pub mod Secrets
pub mod Settings
