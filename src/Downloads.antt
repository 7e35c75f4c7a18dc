-- ===== src/Downloads.antt =====
-- src/services/downloads: the plain HTTP downloads.
pub mod RangePlan
pub mod HttpDownload
pub mod Manager
pub mod MergeEngine
use batorrent.Base.{}
