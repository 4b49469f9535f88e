-- ===== src/Translation.antt =====
-- pkg/imagetranslation/translator.go: from an image's name to where it is downloaded.
pub mod Defs
pub mod Chosen
