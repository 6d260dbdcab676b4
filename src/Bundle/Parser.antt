-- ===== src/Bundle/Parser.antt =====
-- The parser of skill bundles, daemon/crates/a2ex-skill-bundle/src/parser.rs: Types holds its records,
-- Fences splits the front matter off, Headings the body into sections, Sorting names and classifies
-- the sections, Documents reads one document and Assembly a whole bundle. The theorems are in
-- Fences/RoundTrip, Sorting/Collisions, Assembly/Whole and Assembly/Panics, the lemmas of the last
-- two in Assembly/Shape, Assembly/Partition and Assembly/Complete.
pub mod Fences
pub mod Headings
pub mod Sorting
pub mod Types
pub mod Documents
pub mod Assembly
