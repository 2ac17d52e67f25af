-- ===== src/Certs.antt =====
-- The package certs: a root CA, the issuer CAs under it, and the leaf certificates that these sign.
pub mod Errors
pub mod Names
pub mod Dns
pub mod Definition
pub mod Crypto
pub mod State
pub mod Validate
pub mod Store
pub mod Ledger
pub mod Manager
pub mod Making
pub mod Authority
pub mod Trust
pub mod Sound
pub mod Sans
pub mod Request
pub mod Issuing
mod Toy
mod Tests
mod RequestTests
mod Exact
mod PagesTests
mod FirstTests
mod SigningTests
