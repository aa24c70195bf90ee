-- ===== src/Edits.antt =====
-- Edits of files: pkg/services/edit_file_helper.go on ASCII texts.
pub mod Texts
pub mod Match
pub mod Apply
mod Lines
mod Blocks
pub mod Applied
