-- ===== src/Formats.antt =====
-- crates/formats: file formats of the console.
pub mod Psf
