-- ===== src/Scripts.antt =====
-- scripts/: the command-line programs over the services.
pub mod EncryptTokens
pub mod ManageServices
pub mod CheckRotation
pub mod CleanupTokens
