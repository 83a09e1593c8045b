-- ===== src/Tests.antt =====
-- Runs of the model on a small state, which show that the theorems' hypotheses can hold.
mod Codec
mod Db
mod Laws
mod Tokens
mod Services
mod Logins
mod Callbacks
mod Keys
mod Health
mod Shutdown
mod Renewals
mod Retries
mod Readers
mod Secrets
mod Settings
mod Registry
mod Redis
mod Headers
mod Commands
mod Races
mod Rotation
mod Migration
mod Values
