-- ===== src/Errx.antt =====
-- The package errx: semantic kinds of errors, the wrapper `Error`, and inspection of error trees.
pub mod Kind
pub mod Tree
pub mod Inspect
pub mod Wrap
mod Tests
