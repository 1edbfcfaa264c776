-- ===== src/Tests.antt =====
-- The theorems at concrete inputs.
mod Setup
mod Vault
mod Outer
mod Reserves
mod Users
mod Calls
