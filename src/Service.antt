-- ===== src/Service.antt =====
-- The package service: a program's operating-system service and its managed directories.
mod Tests
mod ManagerTests
mod ResolveTests
pub mod Errors
pub mod Files
pub mod Calls
pub mod Directories
pub mod Spec
pub mod Options
pub mod Resolve
pub mod Logs
pub mod Reconcile
pub mod Cleanup
pub mod Definitions
pub mod Operation
