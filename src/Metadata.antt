-- ===== src/Metadata.antt =====
-- src/services/metadata: what the program reads out of media files.
pub mod MkvChapters
