-- ===== src/Tests.antt =====
-- The theorems on concrete inputs.
mod Data
mod Leasing
mod Committing
mod Admitting
mod Publishing
mod Recovering
mod Acting
mod Authenticating
mod Submitting
mod Handing
