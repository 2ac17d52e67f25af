-- ===== src/Text.antt =====
-- text/text.go: `Slugify`, the prefix and suffix functions, and `Truncate`. Texts are lists of bytes;
-- `Truncate` looks at the runes of a text, so there a text is the list of its runes.
pub mod Slug
pub mod Affixes
pub mod Cut
mod Tests
