-- ===== src/Account.antt =====
-- The package account: local operating-system accounts, looked up and reconciled to a specification.
mod Tests
pub mod Spec
pub mod Backend
pub mod Compare
pub mod Operation
